-- ===== src/Examples/Limits.antt =====
-- Three logins of the demo account in one window of two.
use transactguard.Prelude.{
  ℕ, ◌+◌, ◌<◌, ◌≡◌, refl, ap, ◌∙◌, Option, none, some, List, [], ◌∷◌, All, arith, ◌==◌, ==_refl,
  if◌then◌else◌,
}
use transactguard.RateLimit.{Entry, live_entry, Counters, Limit}
use transactguard.RateLimit.Windows.{let_through, demo_window_admits}

abbrev entry_of : ℕ → List (ℕ × Entry) → Option Entry
entry_of key [] = none
entry_of key ((k, e) ∷ rest) = if k == key then some e else entry_of key rest

abbrev bump : ℕ → ℕ → List (ℕ × Entry) → ℕ × List (ℕ × Entry)
bump key now k =
    let e = live_entry (entry_of key k) now in
    (e.count + 1, (key, record { count = e.count + 1; expires = e.expires }) ∷ k)

abbrev stamp_found : ℕ → ℕ → ℕ → List (ℕ × Entry) → Option Entry → List (ℕ × Entry)
stamp_found key seconds now k none = k
stamp_found key seconds now k (some e) =
    (key, record { count = e.count; expires = some (now + seconds) }) ∷ k

abbrev stamp : ℕ → ℕ → ℕ → List (ℕ × Entry) → List (ℕ × Entry)
stamp key seconds now k = stamp_found key seconds now k (entry_of key k)

entry_of-bump :
    (key now : ℕ) (k : List (ℕ × Entry))
    → entry_of key (bump key now k).1
      ≡ some (record {
        count = (live_entry (entry_of key k) now).count + 1;
        expires = (live_entry (entry_of key k) now).expires;
      })
entry_of-bump key now k = rw (==_refl key)

entry_of-stamp :
    (key seconds now : ℕ) (k : List (ℕ × Entry)) (e : Entry)
    → entry_of key k ≡ some e
    → entry_of key (stamp key seconds now k)
      ≡ some (record { count = e.count; expires = some (now + seconds) })
entry_of-stamp key seconds now k e h =
    let o : entry_of key (stamp_found key seconds now k (some e))
        ≡ some (record { count = e.count; expires = some (now + seconds) }) =
      rw (==_refl key) in
    ap (λ x. entry_of key (stamp_found key seconds now k x)) h ∙ o

abbrev counters : Counters
counters = record {
  Keys = List (ℕ × Entry);
  entry = entry_of;
  incr = bump;
  expire = stamp;
  incr-count = λ key now k. refl;
  incr-entry = entry_of-bump;
  expire-entry = entry_of-stamp;
}

abbrev limit : Limit
limit = record { max = 2; window_seconds = 60 }

in_window : All (λ t. t < 60) (1 ∷ 59 ∷ [])
in_window = (omega arith, (omega arith, tt))

demo_window_admits_example : (let_through counters "demo" limit 1 (0 ∷ 1 ∷ 59 ∷ []) []).0 ≡ 2
demo_window_admits_example =
    demo_window_admits counters "demo" limit 1 0 (1 ∷ 59 ∷ []) [] refl in_window
