-- ===== src/Validation/Tags/Collisions.antt =====
-- validateOutboundTagCollisions of internal/model/custom_config_tags.go: which tags may stand together.
use mathlib.Core.Path.{subst}
use xboard_node_plus.Prelude.{
  ℕ, ◌+◌, Str, true, false, List, [], ◌∷◌, ok, ◌>>◌, Map, ◌≡◌, ◌↔◌, ◌⊎◌, inl, inr, refl, arith, sym,
  ◌∙◌, str_beq, str_beq_iff, reject_if, >>-ok, bind-ok, has, lookup, str_eq, All, is_in, insert,
  lookup-insert, ◌||◌, NoRepeat, Avoids, Avoids-nil, Avoids-insert, Avoids-insert_inv,
  if◌then◌else◌, Bool-cases,
}
use xboard_node_plus.Validation.{duplicate_source_tag}
use xboard_node_plus.Validation.Outbounds.{tag_key}
use xboard_node_plus.Validation.Tags.{
  Source, OutboundTagSource, seen_sources, check_collisions, validate_outbound_tag_collisions,
}
use xboard_node_plus.Model.{OutboundConfig}

-- The keys of the tags that are not blank.
abbrev pub names : List OutboundTagSource → List Str
names [] = []
names (s ∷ l) =
    let rest = names l in if str_beq (tag_key s.tag) [] then rest else tag_key s.tag ∷ rest

abbrev pub IsFree : List OutboundTagSource → OutboundConfig → Type 0
IsFree sources o = (tag_key o.tag ≡ []) ⊎ (is_in (tag_key o.tag) (names sources) ≡ false)

abbrev add_sources : Map Str Source → List OutboundTagSource → Map Str Source
add_sources m [] = m
add_sources m (s ∷ l) =
    let skip = add_sources m l in
    let add = add_sources (insert (tag_key s.tag) s.source m) l in
    if str_beq (tag_key s.tag) [] then skip else add

has-add_sources :
    (x : Str) (m : Map Str Source) (l : List OutboundTagSource)
    → has x (add_sources m l) ≡ (is_in x (names l) || has x m)
has-add_sources x m [] = refl
has-add_sources x m (s ∷ l) = ground (
  arith,
  has-add_sources x m l,
  has-add_sources x (insert (tag_key s.tag) s.source m) l,
  lookup-insert (tag_key s.tag) x s.source m,
)

module _ (s : OutboundTagSource) (m : Map Str Source) (l : List OutboundTagSource) where
  seen-blank : str_beq (tag_key s.tag) [] ≡ true → seen_sources m (s ∷ l) ≡ seen_sources m l
  unfolding seen_sources
  seen-blank e = rw (e)

  seen-named :
      str_beq (tag_key s.tag) [] ≡ false
      → seen_sources m (s ∷ l) ≡ (
          reject_if (has (tag_key s.tag) m) (duplicate_source_tag s.tag)
          >> seen_sources (insert (tag_key s.tag) s.source m) l)
  unfolding seen_sources
  seen-named e = rw (e)

sources_sound :
    (l : List OutboundTagSource) (m a : Map Str Source)
    → seen_sources m l ≡ ok a
    → Avoids m (names l) × NoRepeat (names l) × (a ≡ add_sources m l)
unfolding seen_sources
sources_sound [] m a h = (tt, tt, cc)
sources_sound (s ∷ l) m a h = elim (Bool-cases (str_beq (tag_key s.tag) [])) [
  | inl e ↦ rw (e) (sources_sound l m a (sym (seen-blank s m l e) ∙ h))
  | inr e ↦
      let (x, h1) =
        >>-ok (reject_if (has (tag_key s.tag) m) (duplicate_source_tag s.tag)) _
          (sym (seen-named s m l e) ∙ h) in
      let (away, distinct, p) = sources_sound l (insert (tag_key s.tag) s.source m) a h1 in
      let (away1, away2) = Avoids-insert_inv (tag_key s.tag) s.source m (names l) away in
      rw (e) ((ground (arith, x), away1), (away2, distinct), p)
]

sources_complete :
    (l : List OutboundTagSource) (m : Map Str Source)
    → Avoids m (names l)
    → NoRepeat (names l)
    → seen_sources m l ≡ ok (add_sources m l)
unfolding seen_sources
sources_complete [] m = λ away distinct. refl
sources_complete (s ∷ l) m = elim (Bool-cases (str_beq (tag_key s.tag) [])) [
  | inl e ↦ rw (e) (λ away distinct. sources_complete l m away distinct)
  | inr e ↦ rw (e) (λ away distinct. rw (away.0) (
      sources_complete l (insert (tag_key s.tag) s.source m)
        (Avoids-insert (tag_key s.tag) s.source m (names l) away.1 distinct.0) distinct.1))
]

collisions_iff :
    (i : ℕ) (seen : Map Str Source) (l : List OutboundConfig)
    → (check_collisions i seen l ≡ ok tt)
      ↔ All (λ o. (tag_key o.tag ≡ []) ⊎ (has (tag_key o.tag) seen ≡ false)) l
unfolding check_collisions
collisions_iff i seen [] = ground arith
collisions_iff i seen (o ∷ l) =
    ground (arith, collisions_iff (i + 1) seen l, str_beq_iff (tag_key o.tag) [])

IsFree-iff :
    (sources : List OutboundTagSource) (l : List OutboundConfig)
    → All (λ o. (tag_key o.tag ≡ []) ⊎ (has (tag_key o.tag) (add_sources [] sources) ≡ false)) l
      ↔ All (IsFree sources) l
unfolding lookup
IsFree-iff sources [] = ground arith
IsFree-iff sources (o ∷ l) =
    ground (arith, IsFree-iff sources l, has-add_sources (tag_key o.tag) [] sources)

pub record AreApart (structured : List OutboundConfig) (sources : List OutboundTagSource)
    : Type 0 where
  pub distinct : NoRepeat (names sources)
  pub free : All (IsFree sources) structured

-- validateOutboundTagCollisions returns no error exactly when no tag that is not blank stands twice
-- in the local configuration and none of these is the tag of an outbound of the panel, where case
-- and the spaces around a tag do not count.
pub validate_outbound_tag_collisions_iff :
    (structured : List OutboundConfig) (sources : List OutboundTagSource)
    → (validate_outbound_tag_collisions structured sources ≡ ok tt) ↔ AreApart structured sources
unfolding validate_outbound_tag_collisions
validate_outbound_tag_collisions_iff structured sources = (sound, complete)
  where
    sound :
        validate_outbound_tag_collisions structured sources ≡ ok tt → AreApart structured sources
    sound h =
        let (a, h1, h2) =
          bind-ok (seen_sources [] sources) (λ seen. check_collisions 0 seen structured) h in
        let (away, distinct, e) = sources_sound sources [] a h1 in
        record {
          distinct = distinct;
          free = (IsFree-iff sources structured).0 (
              (collisions_iff 0 _ structured).0
                (subst (λ a. check_collisions 0 a structured ≡ ok tt) e h2));
        }

    complete :
        AreApart structured sources → validate_outbound_tag_collisions structured sources ≡ ok tt
    complete r = rw (sources_complete sources [] (Avoids-nil Source (names sources)) r.distinct) (
        (collisions_iff 0 (add_sources [] sources) structured).1
          ((IsFree-iff sources structured).1 r.free))
