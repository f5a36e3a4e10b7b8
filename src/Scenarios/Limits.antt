-- ===== src/Scenarios/Limits.antt =====
-- The rate limit on three requests a minute.
use mifos_test.Prelude.{
  Bool-cases, inl, inr, same_text, same_text_iff, Text, text, ℕ, List, map, true, ◌≤◌, ◌≡◌, refl,
  ap, [], ◌∷◌, arith, same_text_refl,
}
use mifos_test.Exec.{ok}
use mifos_test.Authentication.{limit_key, limit_of, rate_limit}
use mifos_test.Authentication.Counter.{Event, request, elsewhere, LiveCache, admitted}
use mifos_test.Authentication.Window.{admitted-le-limit}
use mifos_test.Tenants.{domain_key}
use mifos_test.Scenarios.Toy.{toy, toy_settings}
use mifos_test.Scenarios.Resolve.{online, members}

toy_live_cache : LiveCache (toy true)
toy_live_cache = record {
  sets = λ key now value timeout c. refl;
  gets =
      λ key set_at now value timeout c after before. rw (same_text_refl key) (ap ok (ground arith));
  others = λ key other set_at value timeout now c differs. elim (Bool-cases (same_text other key)) [
    | inl same ↦ absurd (differs ((same_text_iff other key).0 same))
    | inr e ↦ rw e refl
  ];
}

-- A request at each of these times.
abbrev all_at : List ℕ → List (Event (toy true))
all_at ts = map (λ t. request t members) ts

abbrev members_key : Text
members_key = limit_key (toy true) members

-- Of five requests in twenty seconds three go on.
burst : admitted members_key (all_at (0 ∷ 5 ∷ 10 ∷ 15 ∷ 20 ∷ [])) online ≡ 3
unfolding rate_limit same_text
burst = refl

-- A request every fifty seconds: each one that goes on renews the counter, and the fourth is
-- answered with 429, although no minute saw more than two.
steady : admitted members_key (all_at (0 ∷ 50 ∷ 100 ∷ 150 ∷ [])) online ≡ 3
unfolding rate_limit same_text
steady = refl

-- Requests of one client to two paths, with the resolver's write between them.
abbrev mixed : List (Event (toy true))
mixed =
    request 0 members
    ∷ elsewhere (λ c. ((toy true).cache_set (domain_key (text "imara.bank.example")) 0 1 300 c).1)
    ∷ request 5 (record members { path = text "/api/v1/branches/" })
    ∷ request 10 (record members { path = text "/api/v1/auth/login/" })
    ∷ request 15 members
    ∷ request 20 members
    ∷ []

mixed_three : admitted members_key mixed online ≡ 3
unfolding rate_limit same_text
mixed_three = refl

admitted-le-limit_example : admitted members_key mixed online ≤ limit_of toy_settings members
unfolding same_text limit_key
admitted-le-limit_example = admitted-le-limit toy_live_cache members 0 mixed online (
  omega arith,
  (
    omega arith,
    (
      λ now c. refl,
      (
        omega arith,
        (
          omega arith,
          (
            omega arith,
            (omega arith, (omega arith, (omega arith, (omega arith, (omega arith, tt))))),
          ),
        ),
      ),
    ),
  ),
)
