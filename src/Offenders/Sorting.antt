-- ===== src/Offenders/Sorting.antt =====
-- The insertion sort `sortOffenders` of processor.go, in place on the array.
use mathlib.Core.List.{Perm, append-nil, perm_middle}
use mathlib.Core.List.Perm
use otel_cardinality_process.Base.{
  ℕ, zero, suc, ◌+◌, ◌-◌, ◌≤◌, ◌≡◌, refl, ap, ◌∙◌, Bool, true, false, List, [], ◌∷◌, ◌++◌, arith,
  ltb, if◌then◌else◌, length, get_or, set, All,
}
use otel_cardinality_process.Offenders.{no_offender, shift, sort_from, sort_offenders}
use otel_cardinality_process.Processor.{Offender}

-- The array as a zipper: the part in front of a position, backwards, and the rest.
abbrev rev_onto : List Offender → List Offender → List Offender
rev_onto [] ys = ys
rev_onto (y ∷ rv) ys = rev_onto rv (y ∷ ys)

get_or-rev_onto :
    (rv : List Offender) (k j : ℕ) (zs : List Offender) (d x : Offender)
    → length rv + k ≡ j
    → get_or zs k d ≡ x
    → get_or (rev_onto rv zs) j d ≡ x
get_or-rev_onto [] k j zs d x e h = let same : j ≡ k = omega (arith, e) in rw same h
get_or-rev_onto (y ∷ rv) k j zs d x e h =
    get_or-rev_onto rv (suc k) j (y ∷ zs) d x (omega (arith, e)) h

set-rev_onto :
    (rv : List Offender) (k j : ℕ) (zs : List Offender) (v : Offender)
    → length rv + k ≡ j
    → set (rev_onto rv zs) j v ≡ rev_onto rv (set zs k v)
set-rev_onto [] k j zs v e = ap (λ i. set zs i v) (omega (arith, e))
set-rev_onto (y ∷ rv) k j zs v e = set-rev_onto rv (suc k) j (y ∷ zs) v (omega (arith, e))

-- Insertion behind the elements of the reversed prefix that are at least as large.
abbrev ins : Offender → List Offender → List Offender
ins key [] = key ∷ []
ins key (y ∷ rv) = if ltb y.delta key.delta then y ∷ ins key rv else key ∷ y ∷ rv

shift_step :
    (j : ℕ) (key y : Offender) (s : List Offender)
    → get_or s j no_offender ≡ y
    → shift (suc j) key s
      ≡ (if ltb y.delta key.delta then shift j key (set s (suc j) y) else set s (suc j) key)
unfolding shift
shift_step j key y s h = rw (← h) (ground arith)

-- The inner loop, with `x` in the slot that is written over.
shift-ins :
    (rv : List Offender) (j : ℕ) (key x : Offender) (rest : List Offender)
    → length rv ≡ j
    → shift j key (rev_onto rv (x ∷ rest)) ≡ rev_onto (ins key rv) rest
unfolding shift
shift-ins [] zero key x rest e = refl
shift-ins [] (suc j) key x rest e = absurd (omega (arith, e))
shift-ins (y ∷ rv) zero key x rest e = absurd (omega (arith, e))
shift-ins (y ∷ rv) (suc j) key x rest e =
    shift_step j key y (rev_onto rv (y ∷ x ∷ rest))
      (get_or-rev_onto rv 0 j (y ∷ x ∷ rest) no_offender y (omega (arith, e)) refl)
    ∙ rw
        (
          set-rev_onto rv 1 (suc j) (y ∷ x ∷ rest) y (omega (arith, e)),
          set-rev_onto rv 1 (suc j) (y ∷ x ∷ rest) key (omega (arith, e)),
          shift-ins rv j key y (y ∷ rest) (omega (arith, e)),
        )
        (chosen (ltb y.delta key.delta))
  where
    chosen :
        (b : Bool)
        → (if b then rev_onto (ins key rv) (y ∷ rest) else rev_onto rv (y ∷ key ∷ rest))
          ≡ rev_onto (if b then y ∷ ins key rv else key ∷ y ∷ rv) rest
    chosen true = refl
    chosen false = refl

-- The prefix, backwards, that the outer loop makes of `xs` behind `rv`.
abbrev sorted_rev : List Offender → List Offender → List Offender
sorted_rev rv [] = rv
sorted_rev rv (x ∷ xs) = sorted_rev (ins x rv) xs

length-ins : (key : Offender) (rv : List Offender) → length (ins key rv) ≡ suc (length rv)
length-ins key [] = refl
length-ins key (y ∷ rv) = ground (arith, length-ins key rv)

sort_from-ins :
    (left i : ℕ) (rv xs : List Offender)
    → length rv ≡ i
    → length xs ≡ left
    → sort_from left i (rev_onto rv xs) ≡ rev_onto (sorted_rev rv xs) []
unfolding sort_from
sort_from-ins zero i rv [] e f = refl
sort_from-ins zero i rv (x ∷ xs) e f = absurd (omega (arith, f))
sort_from-ins (suc left) i rv [] e f = absurd (omega (arith, f))
sort_from-ins (suc left) i rv (x ∷ xs) e f =
    rw
      (
        get_or-rev_onto rv 0 i (x ∷ xs) no_offender x (omega (arith, e)) refl,
        shift-ins rv i x x xs e,
      )
      (sort_from-ins left (i + 1) (ins x rv) xs (omega (arith, length-ins x rv, e))
        (omega (arith, f)))

-- Each element is at most as large as those behind it.
abbrev IsAscending : List Offender → Type 0
IsAscending [] = Unit
IsAscending (y ∷ rv) = All (λ (z : Offender). y.delta ≤ z.delta) rv × IsAscending rv

-- Each element is at least as large as those behind it.
abbrev pub IsDescending : List Offender → Type 0
IsDescending [] = Unit
IsDescending (y ∷ ys) = All (λ (z : Offender). z.delta ≤ y.delta) ys × IsDescending ys

All-ins :
    (n : ℕ) (key : Offender) (rv : List Offender)
    → n ≤ key.delta
    → All (λ (z : Offender). n ≤ z.delta) rv
    → All (λ (z : Offender). n ≤ z.delta) (ins key rv)
All-ins n key [] h a = (h, tt)
All-ins n key (y ∷ rv) h a = placed (All-ins n key rv h a.1) (ltb y.delta key.delta)
  where
    placed :
        All (λ (z : Offender). n ≤ z.delta) (ins key rv)
        → (b : Bool)
        → All (λ (z : Offender). n ≤ z.delta) (if b then y ∷ ins key rv else key ∷ y ∷ rv)
    placed ih true = (a.0, ih)
    placed ih false = (h, a)

All-weaken :
    (m n : ℕ) (rv : List Offender)
    → m ≤ n
    → All (λ (z : Offender). n ≤ z.delta) rv
    → All (λ (z : Offender). m ≤ z.delta) rv
All-weaken m n [] h a = tt
All-weaken m n (y ∷ rv) h a = (omega (arith, h, a.0), All-weaken m n rv h a.1)

ins-IsAscending : (key : Offender) (rv : List Offender) → IsAscending rv → IsAscending (ins key rv)
ins-IsAscending key [] a = (tt, tt)
ins-IsAscending key (y ∷ rv) a = placed (ins-IsAscending key rv a.1) (ltb y.delta key.delta) refl
  where
    placed :
        IsAscending (ins key rv)
        → (b : Bool) → ltb y.delta key.delta ≡ b
        → IsAscending (if b then y ∷ ins key rv else key ∷ y ∷ rv)
    placed ih true e =
        let less : y.delta ≤ key.delta = ground arith in (All-ins y.delta key rv less a.0, ih)
    placed ih false e =
        let more : key.delta ≤ y.delta = ground arith in
        ((more, All-weaken key.delta y.delta rv more a.0), a)

sorted_rev-IsAscending : (rv xs : List Offender) → IsAscending rv → IsAscending (sorted_rev rv xs)
sorted_rev-IsAscending rv [] a = a
sorted_rev-IsAscending rv (x ∷ xs) a = sorted_rev-IsAscending (ins x rv) xs (ins-IsAscending x rv a)

-- Every element of `rv` is at least as large as those of `ys`.
abbrev Above : List Offender → List Offender → Type 0
Above rv ys = All (λ (y : Offender). All (λ (z : Offender). z.delta ≤ y.delta) ys) rv

Above-cons :
    (y : Offender) (rv ys : List Offender)
    → All (λ (z : Offender). y.delta ≤ z.delta) rv
    → Above rv ys
    → Above rv (y ∷ ys)
Above-cons y [] ys a b = tt
Above-cons y (r ∷ rv) ys a b = ((a.0, b.0), Above-cons y rv ys a.1 b.1)

rev_onto-IsDescending :
    (rv ys : List Offender)
    → IsAscending rv
    → IsDescending ys
    → Above rv ys
    → IsDescending (rev_onto rv ys)
rev_onto-IsDescending [] ys a d b = d
rev_onto-IsDescending (y ∷ rv) ys a d b =
    rev_onto-IsDescending rv (y ∷ ys) a.1 (b.0, d) (Above-cons y rv ys a.0 b.1)

Above-nil : (rv : List Offender) → Above rv []
Above-nil [] = tt
Above-nil (y ∷ rv) = (tt, Above-nil rv)

rev_onto-Perm : (rv ys : List Offender) → Perm (rev_onto rv ys) (rv ++ ys)
rev_onto-Perm [] ys = Perm.refl ys
rev_onto-Perm (y ∷ rv) ys = Perm.trans (rev_onto-Perm rv (y ∷ ys)) (perm_middle rv ys)

ins-Perm : (key : Offender) (rv : List Offender) → Perm (ins key rv) (key ∷ rv)
ins-Perm key [] = Perm.refl (key ∷ [])
ins-Perm key (y ∷ rv) = placed (ins-Perm key rv) (ltb y.delta key.delta)
  where
    placed :
        Perm (ins key rv) (key ∷ rv)
        → (b : Bool) → Perm (if b then y ∷ ins key rv else key ∷ y ∷ rv) (key ∷ y ∷ rv)
    placed ih true = Perm.trans (Perm.cons y ih) (Perm.swap key y rv)
    placed ih false = Perm.refl (key ∷ y ∷ rv)

sorted_rev-Perm : (rv xs : List Offender) → Perm (sorted_rev rv xs) (rv ++ xs)
sorted_rev-Perm rv [] = rw (append-nil rv) (Perm.refl rv)
sorted_rev-Perm rv (x ∷ xs) =
    Perm.trans (sorted_rev-Perm (ins x rv) xs)
      (Perm.trans (Perm.append_right xs (ins-Perm x rv)) (Perm.symm (perm_middle rv xs)))

-- The in-place sort of the report puts it into descending order of the deltas, and keeps its
-- entries.
pub sort_offenders-IsDescending :
    (s : List Offender) → IsDescending (sort_offenders s) × Perm (sort_offenders s) s
unfolding sort_offenders
sort_offenders-IsDescending [] = (tt, Perm.refl [])
sort_offenders-IsDescending (x ∷ xs) =
    let sorted : List Offender = sorted_rev (x ∷ []) xs in
    rw (sort_from-ins (suc (length xs) - 1) 1 (x ∷ []) xs refl (omega arith)) (
      rev_onto-IsDescending sorted [] (sorted_rev-IsAscending (x ∷ []) xs (tt, tt)) tt
          (Above-nil sorted),
      Perm.trans (rev_onto-Perm sorted []) (rw (append-nil sorted) (sorted_rev-Perm (x ∷ []) xs)),
    )
