-- ===== src/Web/Ready.antt =====
-- When app/modules/health/handler.go reports that the application is ready.
use kumacore.Prelude.{Bool, true, false, Option, ok, ◌≡◌, ◌↔◌, refl, arith, Result-cases, inl, inr}
use kumacore.Prelude.Assoc.{insert}
use kumacore.Prelude.Text.{Str, Eq-str, str_eq}
use kumacore.Migrate.Types.{Source}
use kumacore.Migrate.Plan.{Database, Plan, ReadFaults, validate}
use kumacore.Web.{ready, check_database, check_migrations, all_ok}

-- What readiness means: the database answers and `Validate` accepts the migrations with some plan.
abbrev pub IsReady :
    {S : Type 0} → (Str → Str) → Bool → ReadFaults → Option Str → Source → Database S → Type 0
IsReady checksum query_fails faults dialect source db =
    (query_fails ≡ false) × ((plan : Plan) × (validate checksum faults dialect source db ≡ ok plan))

-- `Ready` answers 200 exactly if the query works and `Validate` accepts the migrations, whatever the
-- plan is, so that migrations that wait to be applied do not count; otherwise it answers 503.
pub ready_iff :
    {S : Type 0} (checksum : Str → Str) (query_fails : Bool) (faults : ReadFaults)
    (dialect : Option Str) (source : Source) (db : Database S)
    → (((ready checksum query_fails faults dialect source db).code ≡ 200)
        ↔ IsReady checksum query_fails faults dialect source db)
      × (((ready checksum query_fails faults dialect source db).code ≡ 503)
          ↔ (IsReady checksum query_fails faults dialect source db → ⊥))
unfolding ready check_database check_migrations all_ok insert str_eq
ready_iff checksum true faults dialect source db =
    elim (Result-cases (validate checksum faults dialect source db)) [
      | inl (plan, p) ↦
          rw (p, check_migrations)
            ((λ h. absurd (omega arith), λ h. cc (h.0)), (λ h k. cc (k.0), λ h. refl))
      | inr (e, p) ↦
          rw (p, check_migrations)
            ((λ h. absurd (omega arith), λ h. cc (h.0)), (λ h k. cc (k.0), λ h. refl))
    ]
ready_iff checksum false faults dialect source db =
    elim (Result-cases (validate checksum faults dialect source db)) [
      | inl (plan, p) ↦
          rw (p, check_migrations)
            (
              (λ h. (refl, (plan, refl)), λ h. refl),
              (λ h. absurd (omega arith), λ h. absurd (h (refl, (plan, refl)))),
            )
      | inr (e, p) ↦
          rw (p, check_migrations)
            ((λ h. absurd (omega arith), λ h. cc (h.1.1)), (λ h k. cc (k.1.1), λ h. refl))
    ]
