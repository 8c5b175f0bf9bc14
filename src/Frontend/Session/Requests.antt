-- ===== src/Frontend/Session/Requests.antt =====
-- What a request does to the session of its tab, and which calls it makes.
use transactguard.Prelude.{
  ℕ, ◌≡◌, ◌⊎◌, inl, inr, refl, true, Option, none, some, List, [], ◌∷◌, ◌++◌, ◌==◌, ==_iff,
  Bool-cases,
}
use transactguard.Frontend.Session.{
  Call, refresh_call, Payload, Answer, rejected, response, Server, Tab, api_error, Reply, threw,
  is_ok, token_of, parsed, clear_tokens, logged_out, renewed, renewed_by, refresh_with, replayed,
  answered, request,
}

module _ (S : Server) where
  -- The session as it was, or with a new access token.
  abbrev pub Kept : Tab → Tab → Type 0
  Kept tab after = (after ≡ tab) ⊎ ((t : ℕ) × (after ≡ record tab { access_token = some t }))

  -- The session has ended: no token, no user.
  abbrev Lost : Tab → Tab → Type 0
  Lost tab after = after ≡ logged_out (clear_tokens tab)

  abbrev pub Outcome : Tab → Reply (Option Payload) × Tab × S.State → Type 0
  Outcome tab o = Kept tab o.1 ⊎ ((o.0 ≡ threw (api_error 401)) × Lost tab o.1)

  abbrev Renewal : Tab → Option ℕ → Tab → Type 0
  Renewal tab none after = Lost tab (logged_out (clear_tokens after))
  Renewal tab (some t) after = after ≡ record tab { access_token = some t }

  renewed_ok-Renewal : (tab : Tab) (t : Option ℕ) → Renewal tab t (record tab { access_token = t })
  renewed_ok-Renewal tab none = refl
  renewed_ok-Renewal tab (some t) = refl

  renewed-Renewal : (a : Answer) (tab : Tab) → Renewal tab (renewed S a tab).0 (renewed S a tab).1
  unfolding renewed
  renewed-Renewal rejected tab = refl
  renewed-Renewal (response status none) tab = refl
  renewed-Renewal (response status (some p)) tab = elim (Bool-cases (is_ok status)) [
    | inl fine ↦ rw fine (renewed_ok-Renewal tab (token_of p))
    | inr bad ↦ rw bad refl
  ]

  refresh_with-Renewal :
      (r : Option ℕ) (tab : Tab) (n : S.State)
      → Renewal tab (refresh_with S r tab n).0 (refresh_with S r tab n).1
  unfolding refresh_with renewed_by
  refresh_with-Renewal none tab n = refl
  refresh_with-Renewal (some r) tab n = renewed-Renewal (S.answer (refresh_call r) none n).0 tab

  replayed-Outcome :
      (call : Call) (tab : Tab) (t : Option ℕ) (after : Tab) (n : S.State)
      → Renewal tab t after
      → Outcome tab (replayed S call (threw (api_error 401)) (t, after, n))
  unfolding replayed
  replayed-Outcome call tab none after n h = inr (refl, h)
  replayed-Outcome call tab (some t) after n h = inl (inr (t, h))

  -- A 401 is not ok.
  parsed_401 :
      (status : ℕ) (body : Option Payload)
      → (status == 401) ≡ true
      → parsed status body ≡ threw (api_error 401)
  parsed_401 status body h = rw ((==_iff status 401).0 h) refl

  answered-Outcome :
      (call : Call) (a : Answer) (n : S.State) (tab : Tab)
      → Outcome tab (answered S call (a, n) tab)
  unfolding answered
  answered-Outcome call rejected n tab = inl (inl refl)
  answered-Outcome call (response status body) n tab = elim (Bool-cases (status == 401)) [
    | inl e ↦
        let o = refresh_with S tab.refresh_token tab n in
        let h = refresh_with-Renewal tab.refresh_token tab n in
        rw (e, parsed_401 status body e) (replayed-Outcome call tab o.0 o.1 o.2 h)
    | inr e ↦ rw e (inl (inl refl))
  ]

  -- A request leaves the session of its tab as it was, or with a renewed access token in it, or ends
  -- it, with no token and no user left: this last only when it throws the 401 that it met.
  pub request-Outcome : (call : Call) (tab : Tab) (n : S.State) → Outcome tab (request S call tab n)
  unfolding request
  request-Outcome call tab n =
      answered-Outcome call (S.answer call tab.access_token n).0
        (S.answer call tab.access_token n).1 tab

-- A server that keeps the calls which it is sent, in their order.
abbrev logging : Server → Server
logging S = record {
  State = S.State × List Call;
  answer = λ call token s.
      ((S.answer call token s.0).0, ((S.answer call token s.0).1, s.1 ++ (call ∷ [])));
}

-- The calls that a request may make: itself, then a refresh if the tab has a token for it, then
-- itself once more.
abbrev AtMostReplayed : Call → Option ℕ → List Call → Type 0
AtMostReplayed call r log =
    (log ≡ call ∷ [])
    ⊎ ((k : ℕ) × (r ≡ some k)
        × ((log ≡ call ∷ refresh_call k ∷ []) ⊎ (log ≡ call ∷ refresh_call k ∷ call ∷ [])))

module _ (S : Server) where
  replayed_calls :
      (call : Call) (first : Reply (Option Payload)) (t : Option ℕ) (tab : Tab) (n : S.State)
      (log : List Call)
      → ((replayed (logging S) call first (t, tab, (n, log))).2.1 ≡ log)
        ⊎ ((replayed (logging S) call first (t, tab, (n, log))).2.1 ≡ log ++ (call ∷ []))
  unfolding replayed
  replayed_calls call first none tab n log = inl refl
  replayed_calls call first (some t) tab n log = inr refl

  refresh_calls :
      (call : Call) (first : Reply (Option Payload)) (r : Option ℕ) (tab : Tab) (n : S.State)
      → AtMostReplayed call r
          (replayed (logging S) call first (refresh_with (logging S) r tab (n, call ∷ []))).2.1
  unfolding refresh_with renewed_by replayed
  refresh_calls call first none tab n = inl refl
  refresh_calls call first (some k) tab n =
      let a = (S.answer (refresh_call k) none n).0 in
      let n' = (S.answer (refresh_call k) none n).1 in
      inr (
        k,
        refl,
        replayed_calls call first (renewed (logging S) a tab).0 (renewed (logging S) a tab).1 n'
            (call ∷ refresh_call k ∷ []),
      )

  answered_calls :
      (call : Call) (a : Answer) (n : S.State) (tab : Tab)
      → AtMostReplayed call tab.refresh_token
          (answered (logging S) call (a, (n, call ∷ [])) tab).2.1
  unfolding answered
  answered_calls call rejected n tab = inl refl
  answered_calls call (response status body) n tab = elim (Bool-cases (status == 401)) [
    | inl e ↦ rw e (refresh_calls call (parsed status body) tab.refresh_token tab n)
    | inr e ↦ rw e (inl refl)
  ]

  -- Whatever the server answers, a request is sent at most twice, with one refresh between: an expired
  -- token is no loop.
  request_calls :
      (call : Call) (tab : Tab) (n : S.State)
      → AtMostReplayed call tab.refresh_token (request (logging S) call tab (n, [])).2.1
  unfolding request
  request_calls call tab n =
      answered_calls call (S.answer call tab.access_token n).0 (S.answer call tab.access_token n).1
        tab
