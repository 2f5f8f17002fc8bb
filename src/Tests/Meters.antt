-- ===== src/Tests/Meters.antt =====
-- A concrete meter provider with room for a number of callbacks, and the constructor of the processor
-- on it.
use otel_cardinality_process.Base.{
  ℕ, zero, suc, ◌≡◌, ◌≢◌, ◌↔◌, refl, sym, ap, ◌∙◌, String, Bool, true, false, Option, none, some,
  List, [], ◌∷◌, ◌++◌, ◌⊎◌, inl, inr, ite, length, ltb, if◌then◌else◌, ℕ_discrete, get_or, set,
  get_or-append_at, get_or-set_ne, ◌*◌, ◌/◌, if_pos, if_neg,
}
use otel_cardinality_process.Processor.{Processor, new_cardinality_processor}
use otel_cardinality_process.Telemetry.{
  Sdk, SdkLaws, Observation, Float64, TelemetryBuilder, make_builder, unregister_all,
  new_telemetry_builder, register_labels_stripped_callback, register_savings_estimated_callback,
  register_trackers_rejected_callback, register_top_offenders_callback,
  register_trackers_active_callback,
}
use otel_cardinality_process.Telemetry.Callbacks.{new_processor, register_callbacks}
use otel_cardinality_process.Telemetry.Failures.{active_listener, registered-new_processor_error}
use otel_cardinality_process.Telemetry.Constructor.{unregister_all-new_processor}
use otel_cardinality_process.Tests.World.{strict}

abbrev Listener : Type 0
Listener = Processor (List ℕ) → List (Observation String)

record Bench : Type 0 where
  slots : List (Option Listener)
  limit : ℕ

abbrev add_slot : Listener → Bench → Bench
add_slot cb pr = record pr { slots = pr.slots ++ some cb ∷ [] }

abbrev bench_register : Listener → String → Bench → (ℕ ⊎ ℕ) × Bench
bench_register cb i pr =
    if ltb (length pr.slots) pr.limit then (inr (length pr.slots), add_slot cb pr) else (inl 0, pr)

abbrev pub join_first : Option ℕ → Option ℕ → Option ℕ
join_first none b = b
join_first (some e) b = some e

abbrev bench : Sdk (List ℕ)
bench = record {
  Provider = Bench;
  Instrument = String;
  Registration = ℕ;
  Err = ℕ;
  join = join_first;
  instrument = λ k name description unit pr. ((name, none), pr);
  register_callback = bench_register;
  unregister = λ r pr. record pr { slots = set pr.slots r none };
  same = ℕ_discrete;
  registered = λ pr r. get_or pr.slots r none;
}

pub join_first-none : (a b : Option ℕ) → join_first a b ≡ none ↔ ((a ≡ none) × (b ≡ none))
join_first-none none b = (λ h. (refl, h), λ h. h.1)
join_first-none (some e) b = (λ h. cc, λ h. h.0)

-- The two outcomes of a registration.
register_ok :
    (b : Bool) (n r : ℕ) (p q pr' : Bench)
    → ◌≡◌ {A = (ℕ ⊎ ℕ) × Bench} (if b then (inr n, q) else (inl 0, p)) (inr r, pr')
    → (n ≡ r) × (q ≡ pr')
register_ok true n r p q pr' h = (cc, cc)
register_ok false n r p q pr' h = (cc, cc)

register_fails :
    (b : Bool) (n e : ℕ) (p q pr' : Bench)
    → ◌≡◌ {A = (ℕ ⊎ ℕ) × Bench} (if b then (inr n, q) else (inl 0, p)) (inl e, pr')
    → p ≡ pr'
register_fails true n e p q pr' h = cc
register_fails false n e p q pr' h = cc

get_or-beyond : {A : Type 0} (xs : List A) (a : A) → get_or xs (length xs) a ≡ a
get_or-beyond [] a = refl
get_or-beyond (x ∷ xs) a = get_or-beyond xs a

slot_ne :
    (xs : List (Option Listener)) (o : Option Listener) (j : ℕ)
    → length xs ≢ j
    → get_or (xs ++ o ∷ []) j none ≡ get_or xs j none
slot_ne [] o zero n = absurd (n refl)
slot_ne [] o (suc j) n = refl
slot_ne (x ∷ xs) o zero n = refl
slot_ne (x ∷ xs) o (suc j) n = slot_ne xs o j (λ e. n (ap suc e))

slot_added :
    (xs : List (Option Listener)) (o : Option Listener) (j : ℕ)
    → get_or (xs ++ o ∷ []) j none ≡ ite (ℕ_discrete (length xs) j) o (get_or xs j none)
slot_added xs o j = elim (ℕ_discrete (length xs) j) [
  | yes q ↦
      ap (λ n. get_or (xs ++ o ∷ []) n none) (sym q)
      ∙ get_or-append_at xs [] o none
      ∙ sym (if_pos (ℕ_discrete (length xs) j) q _ _)
  | no n ↦ slot_ne xs o j n ∙ sym (if_neg (ℕ_discrete (length xs) j) n _ _)
]

slot_cleared : (xs : List (Option Listener)) (r : ℕ) → get_or (set xs r none) r none ≡ none
slot_cleared [] r = refl
slot_cleared (x ∷ xs) zero = refl
slot_cleared (x ∷ xs) (suc r) = slot_cleared xs r

slot_removed :
    (xs : List (Option Listener)) (r j : ℕ)
    → get_or (set xs r none) j none ≡ ite (ℕ_discrete r j) none (get_or xs j none)
slot_removed xs r j = elim (ℕ_discrete r j) [
  | yes q ↦
      ap (λ n. get_or (set xs r none) n none) (sym q)
      ∙ slot_cleared xs r
      ∙ sym (if_pos (ℕ_discrete r j) q _ _)
  | no n ↦ get_or-set_ne xs r j none none n ∙ sym (if_neg (ℕ_discrete r j) n _ _)
]

bench-laws : SdkLaws bench
bench-laws = record {
  join-none = join_first-none;
  registered-instrument = λ k name description unit pr r. refl;
  register-new = λ cb i pr pr' r e.
      ap (λ n. get_or pr.slots n none) (sym (register_ok _ _ _ _ _ _ e).0)
      ∙ get_or-beyond pr.slots none;
  registered-register = λ cb i pr pr' r j e.
      let (here, new) =
        register_ok (ltb (length pr.slots) pr.limit) (length pr.slots) r pr (add_slot cb pr) pr'
          e in
      ap (λ p. get_or p.slots j none) (sym new)
      ∙ slot_added pr.slots (some cb) j
      ∙ ap (λ n. ite (ℕ_discrete n j) (some cb) (get_or pr.slots j none)) here;
  registered-error = λ cb i pr pr' x j e.
      ap (λ p. get_or p.slots j none)
        (sym (
          register_fails (ltb (length pr.slots) pr.limit) (length pr.slots) x pr (add_slot cb pr)
            pr' e));
  registered-unregister = λ r j pr. slot_removed pr.slots r j;
}

abbrev exact : Float64
exact = record { of_int64 = λ n. n; mul = λ a b. a * b; div = λ a b. a / b; round = λ n. n }

-- One callback is registered already. A provider with room for all, and one with room for two.
abbrev other_listener : Listener
other_listener p = []

abbrev roomy : Bench
roomy = record { slots = some other_listener ∷ []; limit = 10 }

abbrev cramped : Bench
cramped = record { slots = some other_listener ∷ []; limit = 2 }

abbrev unregistered : TelemetryBuilder bench
unregistered = record {
  registrations = [];
  labels_stripped = "otelcol_processor_cardinality_labels.stripped";
  savings_estimated = "otelcol_processor_cardinality_savings.estimated";
  top_offenders = "otelcol_processor_cardinality_top.offenders";
  trackers_active = "otelcol_processor_cardinality_trackers.active";
  trackers_rejected = "otelcol_processor_cardinality_trackers.rejected";
}

abbrev with_one : TelemetryBuilder bench
with_one = record unregistered { registrations = 1 ∷ [] }

abbrev built : TelemetryBuilder bench
built = record unregistered { registrations = 1 ∷ 2 ∷ 3 ∷ 4 ∷ 5 ∷ [] }

registered-new_processor_error_example :
    (j : ℕ) × (bench.registered cramped j ≡ none)
    × (bench.registered (add_slot (active_listener bench bench-laws unregistered) cramped) j
        ≡ some (active_listener bench bench-laws unregistered))
unfolding make_builder new_telemetry_builder register_trackers_active_callback register_callbacks
    register_labels_stripped_callback new_processor
registered-new_processor_error_example =
    registered-new_processor_error bench bench-laws exact (λ s. s) strict cramped cramped
      (add_slot (active_listener bench bench-laws unregistered) cramped)
      (add_slot (active_listener bench bench-laws unregistered) cramped) unregistered with_one 0
      refl refl refl

unregister_all-new_processor_example :
    bench.registered
      (unregister_all bench
        (1 ∷ 2 ∷ 3 ∷ 4 ∷ 5 ∷ [])
        (new_processor bench exact (λ s. s) strict roomy).1)
      3
    ≡ none
unfolding make_builder new_telemetry_builder register_trackers_active_callback register_callbacks
    register_labels_stripped_callback register_savings_estimated_callback
    register_trackers_rejected_callback register_top_offenders_callback new_processor
unregister_all-new_processor_example =
    unregister_all-new_processor bench bench-laws exact (λ s. s) strict roomy
      (new_processor bench exact (λ s. s) strict roomy).1
      (new_cardinality_processor (λ s. s) strict) built refl 3
