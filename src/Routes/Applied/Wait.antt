-- ===== src/Routes/Applied/Wait.antt =====
-- talos_injector.go: the loop of waitForRoutesApplied.
use dockyards_talos.Base.{
  String, ◌⊎◌, ◌≡◌, refl, Bool, true, false, ◌&&◌, Option, none, List, [], ◌∷◌, arith, any, inl,
  inr,
}
use dockyards_talos.Base.Result.{ok, Result-cases}
use dockyards_talos.Base.Time.{ℤ, after}
use dockyards_talos.Routes.Types.{Netip, Error}
use dockyards_talos.Routes.Applied.{
  Talos, Status, present, missing, unreadable, Round, Progress, returned, waiting, missing_ids,
  after_round, poll,
}

abbrev pub is_present : Status → Bool
is_present present = true
is_present missing = false
is_present unreadable = false

-- In the round every identity is there.
abbrev pub shows_all : List String → Round → Bool
shows_all [] round = true
shows_all (id ∷ ids) round = is_present (round.status id) && shows_all ids round

abbrev pub is_past : ℤ → Round → Bool
is_past deadline round = after round.now deadline

abbrev pub has_returned : Progress → Bool
has_returned waiting = false
has_returned (returned e) = true

Status-cases : (s : Status) → (s ≡ present) ⊎ (s ≡ missing) ⊎ (s ≡ unreadable)
Status-cases present = inl refl
Status-cases missing = inr (inl refl)
Status-cases unreadable = inr (inr refl)

Progress-cases : (p : Progress) → (p ≡ waiting) ⊎ ((o : Option Error) × (p ≡ returned o))
Progress-cases waiting = inl refl
Progress-cases (returned o) = inr (o, refl)

List-cases : (l : List String) → (l ≡ []) ⊎ ((x : String) × (xs : List String) × (l ≡ x ∷ xs))
List-cases [] = inl refl
List-cases (x ∷ xs) = inr (x, xs, refl)

module _ (net : Netip) (t : Talos net) where
  missing_ids-shows_all :
      (ids : List String) (round : Round)
      → missing_ids net t round.status ids ≡ ok []
      → shows_all ids round ≡ true
  unfolding missing_ids
  missing_ids-shows_all [] round h = refl
  missing_ids-shows_all (id ∷ ids) round h = elim (Status-cases (round.status id)) [
    | inl here ↦ ground (arith, missing_ids-shows_all ids round)
    | inr (inl absent) ↦ elim (Result-cases (missing_ids net t round.status ids)) [
      | inl (ms, e) ↦ absurd (ground arith)
      | inr (x, e) ↦ absurd (ground arith)
    ]
    | inr (inr failed) ↦ absurd (ground arith)
  ]

  -- If the wait for the routes returns without an error, there was a round in which every one of
  -- them was there.
  pub poll-shows_all :
      (deadline : ℤ) (ids : List String) (rounds : List Round)
      → poll net t deadline ids rounds ≡ returned none
      → any (shows_all ids) rounds ≡ true
  unfolding poll after_round
  poll-shows_all deadline ids [] h = absurd (ground arith)
  poll-shows_all deadline ids (round ∷ rounds) h =
      elim (Result-cases (missing_ids net t round.status ids)) [
        | inl (ms, e) ↦ elim (List-cases ms) [
          | inl all_there ↦ ground (arith, missing_ids-shows_all ids round)
          | inr (x, xs, some_missing) ↦ ground (arith, poll-shows_all deadline ids rounds)
        ]
        | inr (x, e) ↦ absurd (ground arith)
      ]

  -- The wait for the routes ends: it has returned once there was a round whose time is past the
  -- deadline, whatever the node answered.
  pub poll_returns :
      (deadline : ℤ) (ids : List String) (rounds : List Round)
      → any (is_past deadline) rounds ≡ true
      → has_returned (poll net t deadline ids rounds) ≡ true
  unfolding poll after_round
  poll_returns deadline ids [] h = absurd (ground arith)
  poll_returns deadline ids (round ∷ rounds) h =
      elim (Result-cases (missing_ids net t round.status ids)) [
        | inl (ms, e) ↦ elim (List-cases ms) [
          | inl all_there ↦ ground arith
          | inr (x, xs, some_missing) ↦ ground (arith, poll_returns deadline ids rounds)
        ]
        | inr (x, e) ↦ ground arith
      ]
