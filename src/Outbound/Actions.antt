-- ===== src/Outbound/Actions.antt =====
-- The kinds of automatic action of packages/contracts/src/index.ts, and the ceiling that no policy
-- can lift.
use parallelplay.Prelude.{Bool, List, [], ◌∷◌, String, any, filter, same}

pub data ActionKind : Type 0 where
  attention_reprioritize record_approve : ActionKind
  github_check_upsert github_label_upsert github_comment_create : ActionKind
  github_candidate_branch_create github_draft_pr_create github_draft_pr_update : ActionKind
  notification_desktop_deliver notification_webhook_deliver : ActionKind
  merge ready_for_review release deploy scope_accept graph_accept outcome_accept : ActionKind
  policy_promote permission_change secret_change capability_expand : ActionKind

-- AutomaticActionKindSchema
unfoldable pub action_text : ActionKind → String
action_text attention_reprioritize = "attention.reprioritize"
action_text record_approve = "record.approve"
action_text github_check_upsert = "github.check.upsert"
action_text github_label_upsert = "github.label.upsert"
action_text github_comment_create = "github.comment.create"
action_text github_candidate_branch_create = "github.candidate-branch.create"
action_text github_draft_pr_create = "github.draft-pr.create"
action_text github_draft_pr_update = "github.draft-pr.update"
action_text notification_desktop_deliver = "notification.desktop.deliver"
action_text notification_webhook_deliver = "notification.webhook.deliver"
action_text merge = "merge"
action_text ready_for_review = "ready-for-review"
action_text release = "release"
action_text deploy = "deploy"
action_text scope_accept = "scope.accept"
action_text graph_accept = "graph.accept"
action_text outcome_accept = "outcome.accept"
action_text policy_promote = "policy.promote"
action_text permission_change = "permission.change"
action_text secret_change = "secret.change"
action_text capability_expand = "capability.expand"

-- `a === b`
unfoldable pub same_action : ActionKind → ActionKind → Bool
same_action a b = same (action_text a) (action_text b)

-- AUTOMATIC_ACTION_ALLOWLIST
abbrev allowlist : List ActionKind
allowlist =
    attention_reprioritize ∷ record_approve ∷ github_check_upsert ∷ github_label_upsert
    ∷ github_comment_create ∷ github_candidate_branch_create ∷ github_draft_pr_create
    ∷ github_draft_pr_update ∷ notification_desktop_deliver ∷ notification_webhook_deliver ∷ []

unfoldable pub is_automatic_action_allowed : ActionKind → Bool
unfolding same_action
is_automatic_action_allowed action = any (same_action action) allowlist

unfoldable pub allowed_outbound_actions : List ActionKind → List ActionKind
allowed_outbound_actions actions = filter is_automatic_action_allowed actions
