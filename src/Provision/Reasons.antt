-- ===== src/Provision/Reasons.antt =====
-- src/provision/labels.ts and handler.ts: the texts of the errors and the reasons that a run shows.
pub mod Own
use lambda_ciactions.Common.{ℕ, Option, none, some, List, ◌++◌}
use lambda_ciactions.Common.Lists.{length}
use lambda_ciactions.Common.Text.{Text, codes, decimal, json_strings}
use lambda_ciactions.Ingest.Adopt.{Why, not_linux, needs_x86}
use lambda_ciactions.Provision.Labels.{
  MintRefusal, no_runner_labels, incompatible_label, too_many_labels, max_jit_labels, FailureReason,
  own_refusal, rate_limited, retrying, rejected, hosted_label,
}

abbrev pub why_text : Why → Text
why_text not_linux = codes "is not a Linux runner label"
why_text needs_x86 = codes "requires an x86 runner"

-- The messages of the three errors.
unfoldable pub refusal_message : MintRefusal → Text
refusal_message (no_runner_labels labels) =
    codes "this job's "
    ++ (codes "runs-on resolves to no usable runner label"
        ++ (codes " (got "
            ++ (json_strings labels
                ++ codes
                    "): every entry is an unresolved expression. Fix: add a literal LCA label alongside the matrix expression (e.g. `runs-on: [self-hosted, lambda-ci, \"${{ matrix.os }}\"]`), or set the matrix values to literal labels.")))
refusal_message (too_many_labels n) =
    codes "this job's "
    ++ (codes "runs-on carries more runner labels than we can register"
        ++ (codes " ("
            ++ (decimal n
                ++ (codes " after normalization, max "
                    ++ (decimal max_jit_labels
                        ++ (codes
                              "). A runner must advertise EVERY label in runs-on, so we cannot drop any of them: dropping one silently would launch a microVM the job can never be assigned to. Fix: reduce this job's runs-on to at most "
                            ++ (decimal max_jit_labels ++ codes " labels.")))))))
refusal_message (incompatible_label label why) =
    (codes "this job's runs-on carries '"
      ++ (label ++ (codes "', which " ++ (why_text why ++ codes ": "))))
    ++ (codes "LambdaCIActions runs arm64 Linux"
        ++ codes
            " microVMs only (ADR-007), and GitHub matches runners on advertised labels alone, so registering it would run the job on the wrong architecture. Fix: remove the label, or leave this job on a runner that provides it.")

-- The reason of a classified failure, with the message of the error.
unfoldable pub failure_text : Text → FailureReason → Text
failure_text message own_refusal = message
failure_text message rate_limited =
    codes "GitHub rate-limited JIT registration (retrying): " ++ message
failure_text message retrying = codes "JIT registration failed (retrying): " ++ message
failure_text message rejected = codes "JIT registration rejected by GitHub: " ++ message
failure_text message (hosted_label label) =
    codes "GitHub rejected the runner labels for this job (HTTP 422). The label '"
    ++ (label
        ++ codes
            "' is a GitHub-hosted runner label and cannot be registered on a self-hosted runner, so adopt mode cannot claim this repo's jobs as-is. Fix: switch the repo to `label` mode and add an LCA label (or open the auto-rewrite PR from the console).")

-- The reason of a run whose custom flavor is gone.
unfoldable pub unroutable_text : Text → Text
unroutable_text name =
    codes "custom flavor '"
    ++ (name
        ++ codes
            "' is not routable: it was deleted, or its validation state is not `valid` (ADR-041). Re-validate it, or remove the label from this job.")

abbrev pub launch_failed_word : Text
launch_failed_word = codes "launch failed:"

-- "launch failed: ${safeReason}"
unfoldable pub launch_text : Text → Text
launch_text reason = launch_failed_word ++ codes " " ++ reason
