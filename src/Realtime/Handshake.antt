-- ===== src/Realtime/Handshake.antt =====
-- `authenticateSocket` of backend/src/config/socket.js, beside `authenticate` of
-- backend/src/middleware/auth.js.
use transactguard.Prelude.{
  ℕ, List, [], ◌∷◌, ◌++◌, All, or_else, ◌≢◌, ◌⊎◌, ◌≡◌, refl, Bool, true, false, String, Option,
  none, some, inl, inr, Bool-cases,
}
use mathlib.Core.Option.{map as option_map}
use transactguard.Errors.{Code, ApiError, Result, ok, throw}
use transactguard.Errors.Raise
use transactguard.Schema.{Role}
use transactguard.Tokens.{Claims, verify_access_token}
use transactguard.Tokens.Bearer.{
  IsPlain, is_bearer, extract_bearer_token, extract_bearer_token_finds, extract_bearer_token_bare,
  extract_bearer_token-none,
}
use transactguard.Auth.{Services, Principal, Keys, is_token_revoked}
use transactguard.Auth.Sessions.{Token, authenticate, authenticate_payload}

-- `socket.user`
pub record SocketUser : Type 0 where
  pub id : ℕ
  pub email : Option String
  pub role : Option Role
  pub jti : ℕ

-- What `next` is called with.
pub data Next : Type 0 where
  authentication_required token_revoked unavailable : Next
  invalid_token : ApiError → Next
  connected : SocketUser → Next

-- The response over HTTP that a refusal corresponds to.
abbrev pub as_response : Next → Result SocketUser
as_response authentication_required = throw (Raise.unauthorized Code.token_missing)
as_response token_revoked = throw (Raise.unauthorized Code.token_revoked)
as_response unavailable = throw Raise.service_unavailable
as_response (invalid_token e) = throw e
as_response (connected u) = ok u

-- `req.user` without the expiry, which a socket does not keep.
abbrev pub as_socket_user : Result Principal → Result SocketUser
as_socket_user (throw e) = throw e
as_socket_user (ok p) = ok (record { id = p.id; email = p.email; role = p.role; jti = p.jti })

module _ (S : Services) where
  unless_revoked : Claims → Result Bool → Next
  unless_revoked c (throw e) = unavailable
  unless_revoked c (ok true) = token_revoked
  unless_revoked c (ok false) =
      connected (record { id = c.sub; email = c.email; role = c.role; jti = c.jti })

  verified : ℕ → Bool → Keys S → Result Claims → Next
  unfolding unless_revoked
  verified now up keys (throw e) = invalid_token e
  verified now up keys (ok c) = unless_revoked c (is_token_revoked S c.jti now up keys)

  -- The token of the handshake's `auth`, bare or behind a scheme; an empty text counts as none.
  unfoldable pub socket_token : Option (List ℕ) → Option (List ℕ)
  socket_token none = none
  socket_token (some []) = none
  socket_token (some (c ∷ s)) = some (or_else (extract_bearer_token (some (c ∷ s))) (c ∷ s))

  verified_token : ℕ → Bool → Keys S → Option (Token S) → Next
  unfolding verified
  verified_token now up keys none = authentication_required
  verified_token now up keys (some t) = verified now up keys (verify_access_token S.jwt t now)

  -- `token_of` is the text as jsonwebtoken reads it.
  unfoldable pub authenticate_socket :
      (List ℕ → Token S) → Option (List ℕ) → ℕ → Bool → Keys S → Next
  unfolding verified_token socket_token
  authenticate_socket token_of auth now up keys =
      verified_token now up keys (option_map token_of (socket_token auth))

  -- `authenticate` of a request with this header.
  unfoldable pub authenticate_header :
      (List ℕ → Token S) → Option (List ℕ) → ℕ → Bool → Keys S → Result Principal
  authenticate_header token_of header now up keys =
      authenticate S (option_map token_of (extract_bearer_token header)) now up keys

  agrees_on :
      (now : ℕ) (up : Bool) (keys : Keys S) (r : Result Claims)
      → as_response (verified now up keys r) ≡ as_socket_user (authenticate_payload S now up keys r)
  unfolding verified authenticate_payload is_token_revoked
  agrees_on now up keys (throw e) = refl
  agrees_on now false keys (ok c) = refl
  agrees_on now true keys (ok c) = elim (Bool-cases (S.redis.exists c.jti now keys)) [
    | inl gone ↦ rw gone refl
    | inr there ↦ rw there refl
  ]

  token_agrees :
      (now : ℕ) (up : Bool) (keys : Keys S) (t : Option (Token S))
      → as_response (verified_token now up keys t) ≡ as_socket_user (authenticate S t now up keys)
  unfolding verified_token authenticate
  token_agrees now up keys none = refl
  token_agrees now up keys (some t) = agrees_on now up keys (verify_access_token S.jwt t now)

  socket_token-found :
      (h t : List ℕ) → extract_bearer_token (some h) ≡ some t → socket_token (some h) ≡ some t
  unfolding socket_token
  socket_token-found [] t e = absurd (let n = extract_bearer_token_bare [] tt in cc)
  socket_token-found (c ∷ s) t e = rw e refl

  socket_token-bare :
      (raw : List ℕ) → All IsPlain raw → raw ≢ [] → socket_token (some raw) ≡ some raw
  unfolding socket_token
  socket_token-bare [] h ne = absurd (ne refl)
  socket_token-bare (c ∷ s) h ne = rw (extract_bearer_token_bare (c ∷ s) h) refl

  -- What a socket is told of a token is what a request over HTTP is told that carries it as a bearer
  -- token: let in as the same user, or refused because it is revoked, because the denylist cannot be
  -- read, or with the error of the token's check. The handshake may give the token in the form of such
  -- a header, or bare, as a text that is not empty and has no space; without a token, or with an empty
  -- text, it is refused as a request without a header is.
  pub authenticate_socket_agrees :
      (token_of : List ℕ → Token S) (now : ℕ) (up : Bool) (keys : Keys S)
      → ((h t : List ℕ)
          → extract_bearer_token (some h) ≡ some t
          → as_response (authenticate_socket token_of (some h) now up keys)
            ≡ as_socket_user (authenticate_header token_of (some h) now up keys))
        × ((scheme raw : List ℕ)
            → All IsPlain scheme
            → is_bearer scheme ≡ true
            → All IsPlain raw
            → raw ≢ []
            → as_response (authenticate_socket token_of (some raw) now up keys)
              ≡ as_socket_user
                  (authenticate_header token_of (some (scheme ++ (32 ∷ raw))) now up keys))
        × ((none_given : Option (List ℕ))
            → (none_given ≡ none) ⊎ (none_given ≡ some [])
            → as_response (authenticate_socket token_of none_given now up keys)
              ≡ as_socket_user (authenticate_header token_of none now up keys))
  unfolding authenticate_socket authenticate_header authenticate
  authenticate_socket_agrees token_of now up keys =
      let none' = extract_bearer_token-none in
      (
        λ h t e. rw (socket_token-found h t e, e) (token_agrees now up keys (some (token_of t))),
        λ scheme raw plain bearer bare ne.
            let found = extract_bearer_token_finds scheme raw plain bare ne in
            rw (socket_token-bare raw bare ne, found, bearer)
              (token_agrees now up keys (some (token_of raw))),
        λ given e. elim e [ inl n ↦ rw (n, none') refl | inr n ↦ rw (n, none') refl ],
      )
