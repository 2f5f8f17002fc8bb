-- ===== src/Config/Validation.antt =====
-- What `Validate` of config.go accepts.
use mathlib.Core.List.{Permᴰ}
use mathlib.Core.List.Permᴰ
use text.Mathlib.Text.{◌==◌ as str_eq}
use text.Mathlib.TextEquality.{eq_iff}
use otel_cardinality_process.Base.{
  String, ◌≡◌, ◌↔◌, ◌⊎◌, inl, inr, refl, sym, subst, Bool, true, false, not, ◌||◌, Option, none,
  some, List, [], ◌∷◌, All, arith, if◌then◌else◌,
}
use otel_cardinality_process.Base.Int.{ℤ, pos, negsuc, leb_ℤ, ltb_ℤ}
use otel_cardinality_process.Config.{
  Config, Error, unknown_mode, check_overrides, check_mode, validate_tail, validate, float_negative,
  resolved_enforcement_mode, enforcement_tag_only, enforcement_overflow_attribute,
  enforcement_strip_and_reaggregate,
}

abbrev pub IsOverride : String × ℤ → Type 0
IsOverride (name, limit) = (str_eq name "" ≡ false) × (ltb_ℤ (pos 0) limit ≡ true)

abbrev pub IsMode : String → Type 0
IsMode m =
    (m ≡ enforcement_tag_only)
    ⊎ (m ≡ enforcement_overflow_attribute)
    ⊎ (m ≡ enforcement_strip_and_reaggregate)

-- The constraints, which the comments of the fields state.
pub record IsAccepted (to_lower : String → String) (c : Config) : Type 0 where
  pub delta : ltb_ℤ (pos 0) c.max_cardinality_delta_per_epoch ≡ true
  pub epoch : leb_ℤ (pos 10) c.epoch_duration_seconds ≡ true
  pub cost : float_negative c.estimated_cost_per_metric_month ≡ false
  pub offenders :
      (leb_ℤ (pos 0) c.top_offenders_count ≡ true) × (leb_ℤ c.top_offenders_count (pos 500) ≡ true)
  pub trackers :
      (leb_ℤ (pos 0) c.max_tracker_count ≡ true)
      × (leb_ℤ c.max_tracker_count (pos 10_000_000) ≡ true)
  pub overrides : All IsOverride c.metric_overrides
  pub drop_logs : leb_ℤ (pos 0) c.drop_log_max_per_epoch ≡ true
  pub mode : (str_eq c.enforcement_mode "" ≡ true) ⊎ IsMode (to_lower c.enforcement_mode)

not_leb : (a b : ℤ) → leb_ℤ a b ≡ false ↔ ltb_ℤ b a ≡ true
not_leb (pos a) (pos b) = (λ h. ground arith, λ h. ground arith)
not_leb (pos a) (negsuc b) = (λ h. refl, λ h. refl)
not_leb (negsuc a) (pos b) = (λ h. sym h, λ h. sym h)
not_leb (negsuc a) (negsuc b) = (λ h. ground arith, λ h. ground arith)

not_ltb : (a b : ℤ) → ltb_ℤ a b ≡ false ↔ leb_ℤ b a ≡ true
not_ltb (pos a) (pos b) = (λ h. ground arith, λ h. ground arith)
not_ltb (pos a) (negsuc b) = (λ h. refl, λ h. refl)
not_ltb (negsuc a) (pos b) = (λ h. sym h, λ h. sym h)
not_ltb (negsuc a) (negsuc b) = (λ h. ground arith, λ h. ground arith)

not_either : (a b : Bool) → (a || b) ≡ false ↔ ((a ≡ false) × (b ≡ false))
not_either true b = (λ h. cc, λ h. h.0)
not_either false b = (λ h. (refl, h), λ h. h.1)

unguard :
    (b : Bool) (e : Error) (r : Option Error)
    → (if b then some e else r) ≡ none
    → (b ≡ false) × (r ≡ none)
unguard true e r h = cc
unguard false e r h = (refl, h)

All-Permᴰ : {a b : List (String × ℤ)} → Permᴰ a b → All IsOverride a → All IsOverride b
All-Permᴰ Permᴰ.nil h = tt
All-Permᴰ (Permᴰ.cons e p) h = (subst IsOverride e h.0, All-Permᴰ p h.1)
All-Permᴰ (Permᴰ.swap e f) h = (subst IsOverride f h.1.0, (subst IsOverride e h.0, h.1.1))
All-Permᴰ (Permᴰ.trans p q) h = All-Permᴰ q (All-Permᴰ p h)

check_overrides_iff : (l : List (String × ℤ)) → check_overrides l ≡ none ↔ All IsOverride l
unfolding check_overrides
check_overrides_iff [] = (λ h. tt, λ h. refl)
check_overrides_iff ((name, limit) ∷ l) = (
  λ h.
      let a = unguard (str_eq name "") _ _ h in
      let b = unguard (leb_ℤ limit (pos 0)) _ _ a.1 in
      ((a.0, (not_leb limit (pos 0)).0 b.0), (check_overrides_iff l).0 b.1),
  λ h. rw (h.0.0, (not_leb limit (pos 0)).1 h.0.1) ((check_overrides_iff l).1 h.1),
)

accepted_modes :
    (empty tag overflow strip : Bool) (e : Error)
    → (if not empty then if tag || overflow || strip then none else some e else none) ≡ none
      ↔ ((empty ≡ true) ⊎ (tag ≡ true) ⊎ (overflow ≡ true) ⊎ (strip ≡ true))
accepted_modes true a b c e = (λ h. inl refl, λ h. refl)
accepted_modes false true b c e = (λ h. inr (inl refl), λ h. refl)
accepted_modes false false true c e = (λ h. inr (inr (inl refl)), λ h. refl)
accepted_modes false false false true e = (λ h. inr (inr (inr refl)), λ h. refl)
accepted_modes false false false false e = (
  λ h. cc,
  λ h. elim h [
    | inl x ↦ cc
    | inr r ↦ elim r [ inl x ↦ cc | inr q ↦ elim q [ inl x ↦ cc | inr x ↦ cc ] ]
  ],
)

map_sum : {A B C D : Type 0} → (A → B) → (C → D) → A ⊎ C → B ⊎ D
map_sum f g (inl a) = inl (f a)
map_sum f g (inr c) = inr (g c)

module _ (to_lower : String → String) where
  check_mode_iff :
      (c : Config)
      → check_mode to_lower c ≡ none
        ↔ ((str_eq c.enforcement_mode "" ≡ true) ⊎ IsMode (to_lower c.enforcement_mode))
  unfolding check_mode
  check_mode_iff c =
      let m = to_lower c.enforcement_mode in
      let tag = eq_iff m enforcement_tag_only in
      let overflow = eq_iff m enforcement_overflow_attribute in
      let strip = eq_iff m enforcement_strip_and_reaggregate in
      let both =
        accepted_modes (str_eq c.enforcement_mode "") (str_eq m enforcement_tag_only)
          (str_eq m enforcement_overflow_attribute) (str_eq m enforcement_strip_and_reaggregate)
          (unknown_mode c.enforcement_mode) in
      (
        λ h. map_sum (λ x. x) (map_sum tag.0 (map_sum overflow.0 strip.0)) (both.0 h),
        λ h. both.1 (map_sum (λ x. x) (map_sum tag.1 (map_sum overflow.1 strip.1)) h),
      )

  validate_tail_iff :
      (c : Config)
      → validate_tail to_lower c ≡ none ↔ (
          (leb_ℤ (pos 0) c.drop_log_max_per_epoch ≡ true)
          × ((str_eq c.enforcement_mode "" ≡ true) ⊎ IsMode (to_lower c.enforcement_mode)))
  unfolding validate_tail
  validate_tail_iff c =
      let sign = not_ltb c.drop_log_max_per_epoch (pos 0) in
      (
        λ h.
            let a = unguard (ltb_ℤ c.drop_log_max_per_epoch (pos 0)) _ _ h in
            (sign.0 a.0, (check_mode_iff c).0 a.1),
        λ h. rw (sign.1 h.0) ((check_mode_iff c).1 h.1),
      )

  -- The check of the overrides in front of the last ones.
  in_turn :
      (l : List (String × ℤ)) (r : Option Error)
      → (elim (check_overrides l) [ some e ↦ some e | none ↦ r ]) ≡ none
      → (check_overrides l ≡ none) × (r ≡ none)
  in_turn l r h = turn (check_overrides l) h
    where
      turn :
          (o : Option Error)
          → (elim o [ some e ↦ some e | none ↦ r ]) ≡ none
          → (o ≡ none) × (r ≡ none)
      turn none h = (refl, h)
      turn (some e) h = cc

  pub validate-none :
      (order : List (String × ℤ) → List (String × ℤ)) (c : Config)
      → Permᴰ (order c.metric_overrides) c.metric_overrides
      → validate to_lower order c ≡ none ↔ IsAccepted to_lower c
  unfolding validate
  validate-none order c visits = (
    λ h.
        let a = unguard (leb_ℤ c.max_cardinality_delta_per_epoch (pos 0)) _ _ h in
        let b = unguard (ltb_ℤ c.epoch_duration_seconds (pos 10)) _ _ a.1 in
        let d = unguard (float_negative c.estimated_cost_per_metric_month) _ _ b.1 in
        let e =
          unguard (ltb_ℤ c.top_offenders_count (pos 0) || ltb_ℤ (pos 500) c.top_offenders_count) _ _
            d.1 in
        let f =
          unguard (ltb_ℤ c.max_tracker_count (pos 0) || ltb_ℤ (pos 10_000_000) c.max_tracker_count)
            _ _ e.1 in
        let g = in_turn (order c.metric_overrides) (validate_tail to_lower c) f.1 in
        let t = (validate_tail_iff c).0 g.1 in
        let offenders = (not_either _ _).0 e.0 in
        let trackers = (not_either _ _).0 f.0 in
        record {
          delta = (not_leb c.max_cardinality_delta_per_epoch (pos 0)).0 a.0;
          epoch = (not_ltb c.epoch_duration_seconds (pos 10)).0 b.0;
          cost = d.0;
          offenders = (
            (not_ltb c.top_offenders_count (pos 0)).0 offenders.0,
            (not_ltb (pos 500) c.top_offenders_count).0 offenders.1,
          );
          trackers = (
            (not_ltb c.max_tracker_count (pos 0)).0 trackers.0,
            (not_ltb (pos 10_000_000) c.max_tracker_count).0 trackers.1,
          );
          overrides = All-Permᴰ visits ((check_overrides_iff (order c.metric_overrides)).0 g.0);
          drop_logs = t.0;
          mode = t.1;
        },
    λ h.
        let listed =
          (check_overrides_iff (order c.metric_overrides)).1
            (All-Permᴰ (Permᴰ.symm visits) h.overrides) in
        rw
          (
            (not_leb c.max_cardinality_delta_per_epoch (pos 0)).1 h.delta,
            (not_ltb c.epoch_duration_seconds (pos 10)).1 h.epoch,
            h.cost,
            (not_ltb c.top_offenders_count (pos 0)).1 h.offenders.0,
            (not_ltb (pos 500) c.top_offenders_count).1 h.offenders.1,
            (not_ltb c.max_tracker_count (pos 0)).1 h.trackers.0,
            (not_ltb (pos 10_000_000) c.max_tracker_count).1 h.trackers.1,
            listed,
          )
          ((validate_tail_iff c).1 (h.drop_logs, h.mode)),
  )

  resolved_accepted :
      (c : Config) → IsAccepted to_lower c → IsMode (resolved_enforcement_mode to_lower c)
  unfolding resolved_enforcement_mode
  resolved_accepted c h = cases (str_eq c.enforcement_mode "") c.tag_only h.mode
    where
      cases :
          (empty tag : Bool)
          → (empty ≡ true) ⊎ IsMode (to_lower c.enforcement_mode)
          → IsMode (
              if not empty
              then to_lower c.enforcement_mode
              else if tag
              then enforcement_tag_only
              else enforcement_strip_and_reaggregate)
      cases true true m = inl refl
      cases true false m = inr (inr refl)
      cases false tag (inl e) = cc
      cases false tag (inr m) = m

  -- A configuration that passes `Validate` runs in one of the three modes.
  pub resolved_enforcement_mode-IsMode :
      (order : List (String × ℤ) → List (String × ℤ)) (c : Config)
      → Permᴰ (order c.metric_overrides) c.metric_overrides
      → validate to_lower order c ≡ none
      → IsMode (resolved_enforcement_mode to_lower c)
  resolved_enforcement_mode-IsMode order c visits h =
      resolved_accepted c ((validate-none order c visits).0 h)
