-- ===== src/Common/Tags.antt =====
-- normaliseTags, which backend/internal/inbounds/validate.go and backend/internal/hosts/validate.go
-- have in the same words: the trimmed tags, each once, without the empty and the long ones.
use Prim.Native.Nat.{ℕ, zero, suc, ◌≤◌}
use Prim.Native.String.{String, len}
use mathlib.Core.Path.{◌≡◌}
use mathlib.Core.Logic.{◌≢◌, inl, inr}
use mathlib.Core.Bool.{Bool, true, false, ◌||◌}
use mathlib.Core.List.{List, [], ◌∷◌}
use native.Mathlib.Omega.{arith}
use aegis_panel.Common.Tests.{if◌then◌else◌, ltb, Bool-cases}
use aegis_panel.Common.Lists.{length, All}
use aegis_panel.Common.Texts.{is_text, is_text_iff, trim_space}
use aegis_panel.Common.Distinct.{member, NoRepeat}

abbrev pub dropped : ℕ → String → List String → Bool
dropped max_len tag seen = (is_text tag "" || ltb max_len (len tag)) || member is_text tag seen

-- `room` tags may still be kept.
unfoldable pub collect_tags : ℕ → ℕ → List String → List String → List String
unfolding trim_space
collect_tags max_len room seen [] = []
collect_tags max_len zero seen (raw ∷ raws) = []
collect_tags max_len (suc room) seen (raw ∷ raws) =
    let skip = collect_tags max_len (suc room) seen raws in
    let keep = collect_tags max_len room (trim_space raw ∷ seen) raws in
    if dropped max_len (trim_space raw) seen then skip else trim_space raw ∷ keep

-- What the loop returns.
pub record TagList (max_len room : ℕ) (seen out : List String) : Type 0 where
  pub few : length out ≤ room
  pub once : NoRepeat is_text out
  pub fresh : (q : String) → member is_text q out ≡ true → member is_text q seen ≡ false
  pub sized : All (λ q. (q ≢ "") × (len q ≤ max_len)) out

pub collect_tags-TagList :
    (max_len room : ℕ) (seen raws : List String)
    → TagList max_len room seen (collect_tags max_len room seen raws)
unfolding collect_tags
collect_tags-TagList max_len room seen [] = record {
  few = omega arith;
  once = tt;
  fresh = λ q h. absurd (ground arith);
  sized = tt;
}
collect_tags-TagList max_len zero seen (raw ∷ raws) = record {
  few = omega arith;
  once = tt;
  fresh = λ q h. absurd (ground arith);
  sized = tt;
}
collect_tags-TagList max_len (suc room) seen (raw ∷ raws) =
    elim (Bool-cases (dropped max_len (trim_space raw) seen)) [
      | inl e ↦ rw e (collect_tags-TagList max_len (suc room) seen raws)
      | inr e ↦
          let tag = trim_space raw in
          let rest = collect_tags max_len room (tag ∷ seen) raws in
          let t = collect_tags-TagList max_len room (tag ∷ seen) raws in
          let new : member is_text tag rest ≡ false = elim (Bool-cases (member is_text tag rest)) [
            | inl m ↦ absurd (ground (arith, t.fresh tag m, is_text_iff tag tag))
            | inr m ↦ m
          ] in
          rw e (record {
            few = omega (arith, t.few);
            once = (new, t.once);
            fresh = λ q h. ground (arith, t.fresh q, is_text_iff tag q);
            sized = ((λ x. ground (arith, is_text_iff tag ""), ground arith), t.sized);
          })
    ]
