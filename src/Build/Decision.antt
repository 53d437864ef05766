-- ===== src/Build/Decision.antt =====
-- How a kernel picks the outbound of a connection: the first rule that matches it, or else the
-- default. What a rule matches is the kernel's affair, and a parameter.
use xboard_node_plus.Prelude.{
  ◌≡◌, refl, Bool, true, false, Str, List, [], ◌∷◌, ◌++◌, Option, some, none, any, str_beq,
  str_beq_iff, ◌≢◌, arith, if◌then◌else◌, Bool-cases, inl, inr, All,
}
use xboard_node_plus.Model.Values.{text}
use xboard_node_plus.Build.{M, Value, raw, at}
use Prim.Native.String.{String}

abbrev pub tag_in : Option Value → Str
tag_in (some (raw (text s))) = s
tag_in other = []

module _ {C : Type 0} (matches : M → C → Bool) (tag_key : String) (final : Str) where
  -- The tag of the outbound that takes the connection c.
  unfoldable pub decide : List M → C → Str
  decide [] c = final
  decide (r ∷ rules) c =
      let rest = decide rules c in if matches r c then tag_in (at tag_key r) else rest

  -- Rules that do not match are passed over.
  pub decide-append :
      (l k : List M) (c : C) → any (λ r. matches r c) l ≡ false → decide (l ++ k) c ≡ decide k c
  unfolding decide
  decide-append [] k c none_of = refl
  decide-append (r ∷ l) k c none_of = elim (Bool-cases (matches r c)) [
    | inl here ↦ absurd (cc (rw here at none_of))
    | inr not_here ↦ rw not_here (decide-append l k c (rw not_here at none_of))
  ]

  -- A matching rule among rules for one tag decides.
  pub decide-all :
      (tag : Str) (l k : List M) (c : C)
      → All (λ r. tag_in (at tag_key r) ≡ tag) l
      → any (λ r. matches r c) l ≡ true
      → decide (l ++ k) c ≡ tag
  unfolding decide
  decide-all tag [] k c tags some_of = absurd (cc)
  decide-all tag (r ∷ l) k c (same, tags) some_of = elim (Bool-cases (matches r c)) [
    | inl here ↦ rw here same
    | inr not_here ↦ rw not_here (decide-all tag l k c tags (rw not_here at some_of))
  ]

-- The first outbound with a tag.
unfoldable pub tagged : Str → List M → Option M
tagged tag [] = none
tagged tag (m ∷ l) =
    let rest = tagged tag l in if str_beq (tag_in (at "tag" m)) tag then some m else rest

module _ (tag : Str) where
  pub tagged-append : (l k : List M) → tagged tag l ≡ none → tagged tag (l ++ k) ≡ tagged tag k
  unfolding tagged
  tagged-append [] k none_of = refl
  tagged-append (m ∷ l) k none_of = elim (Bool-cases (str_beq (tag_in (at "tag" m)) tag)) [
    | inl here ↦ absurd (cc (rw here at none_of))
    | inr not_here ↦ rw not_here (tagged-append l k (rw not_here at none_of))
  ]

  pub tagged-first : (l k : List M) {m : M} → tagged tag l ≡ some m → tagged tag (l ++ k) ≡ some m
  unfolding tagged
  tagged-first [] k found = absurd (cc)
  tagged-first (m ∷ l) k found = elim (Bool-cases (str_beq (tag_in (at "tag" m)) tag)) [
    | inl here ↦ rw here (rw here at found)
    | inr not_here ↦ rw not_here (tagged-first l k (rw not_here at found))
  ]

  pub tagged-none : (l : List M) → All (λ m. tag_in (at "tag" m) ≢ tag) l → tagged tag l ≡ none
  unfolding tagged
  tagged-none [] others = refl
  tagged-none (m ∷ l) (other, others) =
      ground (arith, other, str_beq_iff (tag_in (at "tag" m)) tag, tagged-none l others)
