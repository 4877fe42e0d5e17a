-- ===== src/Verification/Builds.antt =====
-- core/verification.py: the runners that build something, a fresh venv or a docker image, and the
-- verifier's own venv.
use bsnexus.Domain.{ProofAspectStatus}
use bsnexus.Effects.{Result, err, ok}
use bsnexus.Prelude.{
  Option, String, [], if◌then◌else◌, join_text, none, not, pos, some, take_text, ◌∷◌,
}
use bsnexus.Verification.Runners.{CommandEnd, Host, Outcome, concat, is_zero_exit}
use bsnexus.Verification.Specs.{AspectSpec}

abbrev ended_badly : Host → String → ProofAspectStatus → CommandEnd → Result Outcome
ended_badly host what status result = ok (record {
  status = status;
  summary =
      concat (what ∷ " (exit " ∷ host.exit_text result.exit_code ∷ ")\n" ∷ result.output ∷ []);
  exit_code = result.exit_code;
})

abbrev smoke_import : Host → Option String → AspectSpec → Result Outcome
smoke_import host none spec = ok (record {
  status = ProofAspectStatus.passed;
  summary = "pip install -e . succeeded (no module name resolved for import smoke)";
  exit_code = some (pos 0);
})
smoke_import host (some name) spec =
    elim (host.run_command 2
      (join_text host.tmp_venv "/bin/python" ∷ "-c" ∷ join_text "import " name ∷ []) 30) [
        | err e ↦ err e
        | ok result ↦
            if is_zero_exit result.exit_code
            then ok (record {
              status = ProofAspectStatus.passed;
              summary = concat ("venv + install + import " ∷ name ∷ " (exit 0)" ∷ []);
              exit_code = some (pos 0);
            })
            else ended_badly host (concat ("`python -c 'import " ∷ name ∷ "'` failed" ∷ []))
                ProofAspectStatus.failed
                (record result {
                  output = concat (host.smoke_hint name result.output ∷ "\n" ∷ result.output ∷ []);
                })
      ]

abbrev smoke_install : Host → AspectSpec → Result Outcome
smoke_install host spec =
    elim (host.run_command 1
      (join_text host.tmp_venv "/bin/pip" ∷ "install" ∷ "--quiet" ∷ "-e" ∷ "." ∷ [])
      spec.timeout_s) [
        | err e ↦ err e
        | ok result ↦
            if is_zero_exit result.exit_code
            then smoke_import host host.module_name spec
            else ended_badly host "`pip install -e .` failed" ProofAspectStatus.failed result
      ]

-- `_run_install_smoke`, on Linux (`bin`, not `Scripts`)
unfoldable pub run_install_smoke : Host → AspectSpec → Result Outcome
run_install_smoke host spec =
    if not host.has_pyproject
    then ok (record {
      status = ProofAspectStatus.skipped;
      summary = "pyproject.toml missing";
      exit_code = none;
    })
    else elim (host.run_command 0 (host.sys_executable ∷ "-m" ∷ "venv" ∷ host.tmp_venv ∷ []) 60) [
      | err e ↦ err e
      | ok result ↦
          if is_zero_exit result.exit_code
          then smoke_install host spec
          else ended_badly host "venv create failed" ProofAspectStatus.error result
    ]

-- `_run_docker_build`; the clean-up in `finally` swallows every error
unfoldable pub run_docker_build : Host → AspectSpec → Result Outcome
run_docker_build host spec =
    if not host.has_docker
    then ok (record {
      status = ProofAspectStatus.skipped;
      summary = "docker CLI not available in this verifier environment";
      exit_code = none;
    })
    else elim (host.run_command 0
        ("docker" ∷ "build" ∷ "--quiet" ∷ "--tag" ∷ host.docker_tag ∷ "." ∷ []) spec.timeout_s) [
          | err e ↦ err e
          | ok result ↦
              if is_zero_exit result.exit_code
              then ok (record {
                status = ProofAspectStatus.passed;
                summary =
                    concat
                      ("docker build (exit 0) — image " ∷ take_text 24 host.docker_tag ∷ "…" ∷ []);
                exit_code = some (pos 0);
              })
              else ended_badly host "`docker build` failed" ProofAspectStatus.failed result
        ]

-- the venv's python and the error, as `_build_aspect_venv` returns them
pub record Venv : Type 0 where
  pub python : Option String
  pub error : Option String

abbrev venv_failure : Host → String → CommandEnd → Result Venv
venv_failure host what result = ok (record {
  python = none;
  error =
      some
        (concat (what ∷ " (exit " ∷ host.exit_text result.exit_code ∷ ")\n" ∷ result.output ∷ []));
})

abbrev venv_toolchain : Host → Result Venv
venv_toolchain host =
    elim (host.run_command 2
      (join_text host.tmp_venv "/bin/pip"
        ∷ "install"
        ∷ "--quiet"
        ∷ "pytest"
        ∷ "pytest-asyncio"
        ∷ "ruff"
        ∷ "httpx"
        ∷ [])
      300) [
        | err e ↦ err e
        | ok result ↦
            if is_zero_exit result.exit_code
            then ok (record { python = some (join_text host.tmp_venv "/bin/python"); error = none })
            else venv_failure host "verifier toolchain install failed" result
      ]

abbrev venv_workspace : Host → Result Venv
venv_workspace host =
    if host.has_pyproject
    then elim (host.run_command 1
        (join_text host.tmp_venv "/bin/pip" ∷ "install" ∷ "--quiet" ∷ "-e" ∷ "." ∷ []) 300) [
          | err e ↦ err e
          | ok result ↦
              if is_zero_exit result.exit_code
              then venv_toolchain host
              else venv_failure host "verifier venv workspace install failed" result
        ]
    else venv_toolchain host

-- `_build_aspect_venv`
unfoldable pub build_aspect_venv : Host → Result Venv
build_aspect_venv host =
    elim (host.run_command 0 (host.sys_executable ∷ "-m" ∷ "venv" ∷ host.tmp_venv ∷ []) 60) [
      | err e ↦ err e
      | ok result ↦
          if is_zero_exit result.exit_code
          then venv_workspace host
          else venv_failure host "verifier venv create failed" result
    ]
