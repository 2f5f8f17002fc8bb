-- ===== src/External.antt =====
-- What the processor calls and does not implement: the HyperLogLog sketches of
-- axiomhq/hyperloglog, the hash functions of cespare/xxhash and hash/maphash, the case mapping of
-- Go's `strings`, and the containers of the collector's `pdata`. They are arguments of the
-- definitions; their documented behaviour is stated in the records of laws.
use otel_cardinality_process.Base.{
  ℕ, ◌<◌, ◌≡◌, String, Bool, List, [], ◌∷◌, ◌++◌, if◌then◌else◌, ite, some, text_discrete,
}
use otel_cardinality_process.Base.Assoc.{lookup}
use otel_cardinality_process.Base.Int.{u64_mod}

-- A sketch stands for its content: that `Estimate` reorders it inside does not show.
pub record Hll : Type 1 where
  pub Sketch : Type 0
  pub new14 : Sketch
  pub insert_hash : ℕ → Sketch → Sketch
  pub estimate : Sketch → ℕ

-- A fresh sketch counts nothing, and an estimate is a `uint64`.
pub record HllLaws (h : Hll) : Type 0 where
  pub estimate-new14 : h.estimate h.new14 ≡ 0
  pub estimate-lt : (s : h.Sketch) → h.estimate s < u64_mod

-- An attribute map is the list of its pairs in the order of `Range`; a slice is a list.
abbrev pub Attrs : Type 0 → Type 0
Attrs V = List (String × V)

pub record Pdata : Type 1 where
  pub Value : Type 0
  pub as_string : Value → String
  pub bool_value : Bool → Value
  pub str_value : String → Value
  -- `RemoveIf` of an attribute map or of a slice, with a callback that changes a state `S`.
  pub remove_if : (S E : Type 0) → (E → S → Bool × S) → List E → S → List E × S
  -- `PutBool` and `PutStr`.
  pub put : String → Value → Attrs Value → Attrs Value
  pub Exemplar : Type 0
  -- `src.MoveAndAppendTo(dst)`, the new `dst`.
  pub move_and_append_to : List Exemplar → List Exemplar → List Exemplar

-- The callback is called once for each element, in order, and those for which it returns true are
-- removed.
unfoldable pub retain : (S E : Type 0) → (E → S → Bool × S) → List E → S → List E × S
retain S E f [] s = ([], s)
retain S E f (x ∷ xs) s =
    let (removed, s₁) = f x s in
    let (rest, s₂) = retain S E f xs s₁ in (if removed then rest else x ∷ rest, s₂)

pub record PdataLaws (p : Pdata) : Type 1 where
  pub remove_if_lem :
      (S E : Type 0) (f : E → S → Bool × S) (l : List E) (s : S)
      → p.remove_if S E f l s ≡ retain S E f l s
  -- `Put` inserts the key or updates its value, and leaves the other keys alone.
  pub lookup-put :
      (k j : String) (v : p.Value) (m : Attrs p.Value)
      → lookup text_discrete j (p.put k v m)
        ≡ ite (text_discrete k j) (some v) (lookup text_discrete j m)
  pub as_string-str_value : (s : String) → p.as_string (p.str_value s) ≡ s
  pub move_and_append_to_lem :
      (src dst : List p.Exemplar) → p.move_and_append_to src dst ≡ dst ++ src

-- All that the processor uses: `sum64` is xxhash's `Sum64String`, and `shard_hash` is
-- `maphash.String` under the seed that the processor draws when it is made.
pub record Env : Type 1 where
  pub hll : Hll
  pub open hll use *
  pub pdata : Pdata
  pub open pdata use *
  pub sum64 : String → ℕ
  pub shard_hash : String → ℕ
