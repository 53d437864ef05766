-- ===== src/Service/Users/Acceptance.antt =====
-- rejectFetchedUsers of internal/service/service.go: which fetched lists replace the users.
use xboard_node_plus.Service.Users.{check_users, reject_fetched_users}
use xboard_node_plus.Model.{UserSpec}
use xboard_node_plus.Prelude.{
  ℕ, ◌+◌, ◌*◌, ◌<◌, ◌≤◌, insert, length, ◌≡◌, ◌≢◌, ◌↔◌, refl, true, false, has, is_pos, List, [],
  ◌∷◌, none, map, arith, All, NoRepeat, Avoids, Avoids-nil, Avoids-insert, Avoids-insert_inv,
  KeySet, nat_eq, str_eq, Str, trim_space,
}

-- A positive ID and a UUID that is not blank.
abbrev pub IsUser : UserSpec → Type 0
IsUser u = (is_pos u.id ≡ true) × (trim_space u.uuid ≢ [])

abbrev pub ids : List UserSpec → List ℕ
ids = map (λ u. u.id)

abbrev pub uuids : List UserSpec → List Str
uuids = map (λ u. trim_space u.uuid)

-- Whether the number of users fell below one half, from ten users at least.
abbrev pub HasDropped : List UserSpec → List UserSpec → Type 0
HasDropped previous fetched = (10 ≤ length previous) × (length fetched * 2 < length previous)

pub record IsAcceptable (previous fetched : List UserSpec) : Type 0 where
  pub kept_some : length fetched ≡ 0 → length previous ≡ 0
  pub users : All IsUser fetched
  pub distinct_ids : NoRepeat (ids fetched)
  pub distinct_uuids : NoRepeat (uuids fetched)
  pub no_drop : ¬ HasDropped previous fetched

-- What the loop lets pass, given what it has seen.
abbrev Passes : KeySet ℕ → KeySet Str → List UserSpec → Type 0
Passes i s l =
    All IsUser l × Avoids i (ids l) × Avoids s (uuids l) × NoRepeat (ids l) × NoRepeat (uuids l)

module _ (n : ℕ) (i : KeySet ℕ) (s : KeySet Str) (u : UserSpec) (l : List UserSpec) where
  check_users_head :
      check_users n i s (u ∷ l) ≡ none
      → IsUser u
        × (has u.id i ≡ false)
        × (has (trim_space u.uuid) s ≡ false)
        × (check_users (n + 1) (insert u.id tt i) (insert (trim_space u.uuid) tt s) l ≡ none)
  unfolding check_users
  check_users_head h = ground arith

  check_users_step :
      IsUser u
      → has u.id i ≡ false
      → has (trim_space u.uuid) s ≡ false
      → check_users (n + 1) (insert u.id tt i) (insert (trim_space u.uuid) tt s) l ≡ none
      → check_users n i s (u ∷ l) ≡ none
  unfolding check_users
  check_users_step h a b c = ground arith

check_users-Passes :
    (n : ℕ) (i : KeySet ℕ) (s : KeySet Str) (l : List UserSpec)
    → check_users n i s l ≡ none
    → Passes i s l
check_users-Passes n i s [] h = (tt, tt, tt, tt, tt)
check_users-Passes n i s (u ∷ l) h =
    let (user, new_id, new_uuid, rest) = check_users_head n i s u l h in
    let (users, a, b, c, d) = check_users-Passes (n + 1) _ _ l rest in
    let (a0, a1) = Avoids-insert_inv u.id tt i (ids l) a in
    let (b0, b1) = Avoids-insert_inv (trim_space u.uuid) tt s (uuids l) b in
    ((user, users), (new_id, a0), (new_uuid, b0), (a1, c), (b1, d))

Passes-check_users :
    (n : ℕ) (i : KeySet ℕ) (s : KeySet Str) (l : List UserSpec)
    → Passes i s l
    → check_users n i s l ≡ none
unfolding check_users
Passes-check_users n i s [] h = refl
Passes-check_users n i s (u ∷ l) ((user, users), (new_id, a), (new_uuid, b), (c1, c), (d1, d)) =
    check_users_step n i s u l user new_id new_uuid (
      Passes-check_users (n + 1) _ _ l (
        users,
        Avoids-insert u.id tt i (ids l) a c1,
        Avoids-insert (trim_space u.uuid) tt s (uuids l) b d1,
        c,
        d,
      ))

accepted_parts :
    (previous fetched : List UserSpec)
    → reject_fetched_users previous fetched ≡ none
    → (length fetched ≡ 0 → length previous ≡ 0)
      × (check_users 0 [] [] fetched ≡ none)
      × (¬ HasDropped previous fetched)
unfolding reject_fetched_users
accepted_parts previous fetched h = (λ e. ground arith, ground arith, λ d. ground arith)

accepted_of_parts :
    (previous fetched : List UserSpec)
    → (length fetched ≡ 0 → length previous ≡ 0)
    → check_users 0 [] [] fetched ≡ none
    → ¬ HasDropped previous fetched
    → reject_fetched_users previous fetched ≡ none
unfolding reject_fetched_users
accepted_of_parts previous fetched a b c = ground arith

-- A fetched list replaces the users exactly when it is not empty while there were users, each entry
-- has a positive ID and a UUID that is not blank, no ID and no trimmed UUID repeats, and, from ten
-- users on, it has at least half as many.
pub reject_fetched_users_iff :
    (previous fetched : List UserSpec)
    → (reject_fetched_users previous fetched ≡ none) ↔ IsAcceptable previous fetched
reject_fetched_users_iff previous fetched = (sound, complete)
  where
    sound : reject_fetched_users previous fetched ≡ none → IsAcceptable previous fetched
    sound h =
        let (some_left, checked, steady) = accepted_parts previous fetched h in
        let (users, a, b, c, d) = check_users-Passes 0 [] [] fetched checked in
        record {
          kept_some = some_left;
          users = users;
          distinct_ids = c;
          distinct_uuids = d;
          no_drop = steady;
        }

    complete : IsAcceptable previous fetched → reject_fetched_users previous fetched ≡ none
    complete a =
        accepted_of_parts previous fetched a.kept_some
          (Passes-check_users 0 [] [] fetched (
            a.users,
            Avoids-nil Unit (ids fetched),
            Avoids-nil Unit (uuids fetched),
            a.distinct_ids,
            a.distinct_uuids,
          ))
          a.no_drop
