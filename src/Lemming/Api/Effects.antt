-- ===== src/Lemming/Api/Effects.antt =====
-- What the calls of the control API of internal/lemming/service.go change.
use hamsterd.Common.{
  ◌≤◌, ◌≡◌, refl, Bool, true, false, Option, none, some, List, [], ◌∷◌, ◌++◌, Text, arith,
  Option-cases, inl, inr, if_cases, not, ltb, length, is_some, text_eq,
}
use hamsterd.Common.Strings.{trim_space}
use hamsterd.Config.Rule.{RedirectRule, validate_rule}
use hamsterd.Config.AutoRules.{
  ConfigCodec, Files, FileFaults, MergeResult, merge_failed, merged, max_auto_rules,
  write_auto_rules,
}
use hamsterd.Lemming.Route.{UrlFunctions}
use hamsterd.Lemming.Service.{
  Service, Change, done, build, change_auto, add_rule, remove_rule, remove_auto_rule, delete_at,
  index_of_domain, taken_domain, merge, after_merge, skipped, too_many, invalid, taken, not_built,
  storage_error, no_domain, config_rule, no_rule,
}
use hamsterd.Lemming.Api.{
  Api, Call, BodyCodec, added_reply, removed_reply, merged_reply, after_change, handle_add,
  handle_merge, handle, get_status, get_rules, post_merge, post_rules, post_route, delete_rules,
  get_requests,
}

-- Whether the change was made.
abbrev pub is_done : Change → Bool
is_done (done rule) = true
is_done skipped = false
is_done too_many = false
is_done (invalid e) = false
is_done (taken domain) = false
is_done not_built = false
is_done storage_error = false
is_done no_domain = false
is_done config_rule = false
is_done no_rule = false

-- A change that is not done leaves the service as it was.
abbrev Leaves : Service → Service × Files × Change → Type 0
Leaves s r = is_done r.2 ≡ false → r.0 ≡ s

module _ (codec : ConfigCodec) (faults : FileFaults) (s : Service) (files : Files) where
  change_auto-Leaves :
      (auto : List RedirectRule) (rule : RedirectRule)
      → Leaves s (change_auto codec faults auto rule s files)
  unfolding change_auto
  change_auto-Leaves auto rule = elim (Option-cases (build s.allow_remote s.base auto)) [
    | inl failed ↦ rw (failed, change_auto) (λ h. refl)
    | inr (router, ok) ↦
        rw (ok, change_auto)
          (if_cases (Leaves s) (not (write_auto_rules codec faults auto files.auto).1) (λ _ h. refl)
            λ _ h. absurd (cc))
  ]

  add_rule-Leaves : (rule : RedirectRule) → Leaves s (add_rule codec faults rule s files)
  unfolding add_rule
  add_rule-Leaves rule =
      if_cases (Leaves s) s.auto_err (λ _ h. refl)
        λ _.
          if_cases (Leaves s) (not (ltb (length s.auto) max_auto_rules)) (λ _ h. refl)
            λ _. elim (Option-cases (validate_rule rule s.allow_remote)) [
              | inr (e, bad) ↦ rw bad (λ h. refl)
              | inl good ↦ rw good (elim (Option-cases (taken_domain s.base s.auto rule.domains)) [
                | inr (d, old) ↦ rw old (λ h. refl)
                | inl free ↦ rw free (change_auto-Leaves (s.auto ++ rule ∷ []) rule)
              ])
            ]

  remove_auto_rule-Leaves :
      (domain : Text) → Leaves s (remove_auto_rule codec faults domain s files)
  unfolding remove_auto_rule
  remove_auto_rule-Leaves domain = elim (Option-cases (index_of_domain s.auto domain)) [
    | inl nobody ↦ rw (nobody, remove_auto_rule) (λ h. refl)
    | inr (i, found) ↦ elim (Option-cases (delete_at s.auto i)) [
      | inl outside ↦ rw (found, remove_auto_rule, outside) (λ h. refl)
      | inr ((removed, auto), split) ↦
          rw (found, remove_auto_rule, split) (change_auto-Leaves auto removed)
    ]
  ]

  remove_rule-Leaves : (domain : Text) → Leaves s (remove_rule codec faults domain s files)
  unfolding remove_rule
  remove_rule-Leaves domain =
      if_cases (Leaves s) (text_eq (trim_space domain) []) (λ _ h. refl)
        λ _.
          if_cases (Leaves s) s.auto_err (λ _ h. refl)
            λ _.
              if_cases (Leaves s) (is_some (index_of_domain s.base domain)) (λ _ h. refl)
                λ _. remove_auto_rule-Leaves domain

added_reply-code : (c : Change) → 300 ≤ (added_reply c).code → is_done c ≡ false
unfolding added_reply
added_reply-code (done rule) h = absurd (omega arith)
added_reply-code skipped h = refl
added_reply-code too_many h = refl
added_reply-code (invalid e) h = refl
added_reply-code (taken domain) h = refl
added_reply-code not_built h = refl
added_reply-code storage_error h = refl
added_reply-code no_domain h = refl
added_reply-code config_rule h = refl
added_reply-code no_rule h = refl

removed_reply-code : (c : Change) → 300 ≤ (removed_reply c).code → is_done c ≡ false
unfolding removed_reply
removed_reply-code (done rule) h = absurd (omega arith)
removed_reply-code skipped h = refl
removed_reply-code too_many h = refl
removed_reply-code (invalid e) h = refl
removed_reply-code (taken domain) h = refl
removed_reply-code not_built h = refl
removed_reply-code storage_error h = refl
removed_reply-code no_domain h = refl
removed_reply-code config_rule h = refl
removed_reply-code no_rule h = refl

after_merge-unchanged :
    (s : Service) (files : Files) (r : MergeResult)
    → 300 ≤ (merged_reply (after_merge s files r).2).code
    → (after_merge s files r).0 ≡ s
unfolding after_merge merged_reply
after_merge-unchanged s files (merge_failed e) h = refl
after_merge-unchanged s files (merged n) h = absurd (omega arith)

module _ (codec : ConfigCodec) (faults : FileFaults) (bodies : BodyCodec) (urls : UrlFunctions)
    (a : Api) where
  merge-unchanged :
      300 ≤ (merged_reply (merge codec faults a.service a.files).2).code
      → (merge codec faults a.service a.files).0 ≡ a.service
  unfolding merge
  merge-unchanged =
      if_cases
        (λ (r : Service × Files × Option MergeResult).
          300 ≤ (merged_reply r.2).code → r.0 ≡ a.service)
        a.service.auto_err (λ _ h. refl) λ _. after_merge-unchanged a.service _ _

  handle_add-unchanged :
      (body : Option RedirectRule)
      → 300 ≤ (handle_add codec faults bodies urls body a).1.code
      → ((handle_add codec faults bodies urls body a).0.service ≡ a.service)
        × ((handle_add codec faults bodies urls body a).0.ring ≡ a.ring)
  unfolding handle_add after_change
  handle_add-unchanged none h = (refl, refl)
  handle_add-unchanged (some rule) h =
      (add_rule-Leaves codec faults a.service a.files rule (added_reply-code _ h), refl)

  -- A call of the control API that is answered with an error, that is with a status from 300 on,
  -- leaves the rules, the router, the trust list and the recent requests as they were.
  pub handle-unchanged :
      (call : Call)
      → 300 ≤ (handle codec faults bodies urls call a).1.code
      → ((handle codec faults bodies urls call a).0.service ≡ a.service)
        × ((handle codec faults bodies urls call a).0.ring ≡ a.ring)
  unfolding handle handle_merge after_change
  handle-unchanged get_status h = (refl, refl)
  handle-unchanged get_rules h = (refl, refl)
  handle-unchanged post_merge h = (merge-unchanged h, refl)
  handle-unchanged (post_rules body) h = handle_add-unchanged (bodies.decode_rule body) h
  handle-unchanged (post_route body) h = (refl, refl)
  handle-unchanged (delete_rules domain) h =
      (remove_rule-Leaves codec faults a.service a.files domain (removed_reply-code _ h), refl)
  handle-unchanged (get_requests raw) h = (refl, refl)
