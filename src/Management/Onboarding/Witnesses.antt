-- ===== src/Management/Onboarding/Witnesses.antt =====
-- Two organizations that are set up in an empty store.
use attendence_system.Prelude.{◌≡◌, refl, inl, [], ◌∷◌, none, some, String, if◌then◌else◌}
use attendence_system.Prelude.Result.{ok}
use attendence_system.Prelude.Text.{str_eq, str_eq_refl}
use attendence_system.Attendance.Types.{after_grace}
use attendence_system.Documents.{Fields}
use attendence_system.Recalculation.Memory.{Memory, memory}
use attendence_system.Management.Onboarding.{
  BootstrapOrganization, BootstrapResult, Claims, Roots, check_bootstrap, write_organization,
  bootstrap_organization,
}
use attendence_system.Management.Onboarding.Laws.{bootstrap_organization-once}

abbrev with_organization : String → Fields → Memory → Memory
with_organization o f s = record s {
  organizations =
      λ x. if str_eq x o then some (record { id = o; path = o; fields = f }) else s.organizations x;
}

abbrev roots : Roots memory
unfolding memory
roots = record {
  create_organization = with_organization;
  organization_created = λ s o f. rw (str_eq_refl o) refl;
  organization_write = λ s o p f. refl;
  organization_merge = λ s o p f. refl;
}

abbrev empty : Memory
empty = record { organizations = λ o. none; documents = [] }

abbrev keep : String → String
keep s = s

abbrev acme : BootstrapOrganization
acme = record {
  organization_id = "acme";
  organization_name = "Acme";
  timezone = "Asia/Colombo";
  branch_id = "colombo";
  branch_name = "Colombo HQ";
  shift_id = "NORMAL";
  shift_name = "Normal Shift";
  start_time = "08:30";
  end_time = "17:30";
  working_days = 1 ∷ 2 ∷ 3 ∷ 4 ∷ 5 ∷ [];
  grace_period_minutes = 10;
  break_minutes = 60;
  late_calculation_mode = after_grace;
}

abbrev owner : Claims
owner = record { uid = "u1"; name = some "Nimal"; email = none }

abbrev visitor : Claims
visitor = record { uid = "u2"; name = none; email = none }

abbrev made : BootstrapResult
made = record { organization_id = "acme"; branch_id = "colombo"; shift_id = "NORMAL" }

makes : (bootstrap_organization memory roots 0 keep acme owner empty).0 ≡ ok made
unfolding bootstrap_organization write_organization check_bootstrap memory
makes = refl

bootstrap_organization-once_example : ¬ (
    (bootstrap_organization memory roots 5 keep acme visitor
      (bootstrap_organization memory roots 0 keep acme owner empty).1).0
    ≡ ok made)
bootstrap_organization-once_example =
    bootstrap_organization-once memory roots keep 0 5 acme acme owner visitor empty made made makes
      refl (inl refl)
