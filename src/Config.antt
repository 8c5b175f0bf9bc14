-- ===== src/Config.antt =====
-- backend/src/config/env.js: the environment that the server starts with, or refuses to start with.
use text.Mathlib.Text.{◌==◌ as str_eq, starts_with}
use transactguard.Prelude.{
  ℕ, ◌≡◌, arith, String, Bool, true, false, ◌&&◌, ◌||◌, Option, none, some, List, [], ◌∷◌, leb, ltb,
  if◌then◌else◌, or_else, ◌>>=◌, bind-some, inl, inr, Bool-cases,
}

-- JavaScript's and zod's functions on texts: the length, `z.url`, `z.coerce.number().int()`, and
-- `split(',')` with `trim`, without the empty parts.
pub record EnvTexts : Type 0 where
  pub length_of : String → ℕ
  pub is_url : String → Bool
  pub to_int : String → Option ℕ
  pub comma_separated : String → List String

-- `process.env`
pub record RawEnv : Type 0 where
  pub database_url : Option String
  pub redis_url : Option String
  pub jwt_secret : Option String
  pub jwt_refresh_secret : Option String
  pub ml_service_url : Option String
  pub ml_service_api_key : Option String
  pub allowed_origin : Option String
  pub run_worker_inline : Option String
  pub port : Option String
  pub node_env : Option String

pub data NodeEnv : Type 0 where
  development test production : NodeEnv

pub record Env : Type 0 where
  pub database_url : String
  pub redis_url : String
  pub jwt_secret : String
  pub jwt_refresh_secret : String
  pub ml_service_url : String
  pub ml_service_api_key : String
  pub allowed_origin : String
  pub run_worker_inline : Bool
  pub port : ℕ
  pub node_env : NodeEnv

-- A key that has to be there and pass a test.
abbrev checked_text : Option String → (String → Bool) → Option String
checked_text none ok? = none
checked_text (some s) ok? = if ok? s then some s else none

abbrev parse_flag : String → Option Bool
parse_flag s =
    if str_eq s "true" then some true else (if str_eq s "false" then some false else none)

abbrev parse_node_env : String → Option NodeEnv
parse_node_env s =
    if str_eq s "development"
    then some development
    else (if str_eq s "test"
        then some test
        else (if str_eq s "production" then some production else none))

abbrev pub is_production : NodeEnv → Bool
is_production production = true
is_production _ = false

abbrev is_nil : List String → Bool
is_nil [] = true
is_nil (x ∷ xs) = false

some-injective : (a b : Env) → some a ≡ some b → a ≡ b
some-injective a b h = cc

module _ (T : EnvTexts) where
  -- `positive().max(65535)`
  in_port_range : Option ℕ → Option ℕ
  in_port_range none = none
  in_port_range (some n) = if ltb 0 n && leb n 65535 then some n else none

  parse_port : Option String → Option ℕ
  unfolding in_port_range
  parse_port none = some 4000
  parse_port (some s) = in_port_range (T.to_int s)

  -- `envSchema.safeParse(process.env)`
  parse_env : RawEnv → Option Env
  unfolding parse_port
  parse_env raw = do
    database_url ←
        checked_text raw.database_url
          (λ s. starts_with s "postgres://" || starts_with s "postgresql://")
    redis_url ←
        checked_text raw.redis_url (λ s. starts_with s "redis://" || starts_with s "rediss://")
    jwt_secret ← checked_text raw.jwt_secret (λ s. leb 32 (T.length_of s))
    jwt_refresh_secret ← checked_text raw.jwt_refresh_secret (λ s. leb 32 (T.length_of s))
    ml_service_url ←
        checked_text (some (or_else raw.ml_service_url "http://localhost:8000")) T.is_url
    ml_service_api_key ← checked_text raw.ml_service_api_key (λ s. leb 16 (T.length_of s))
    run_worker_inline ← parse_flag (or_else raw.run_worker_inline "false")
    port ← parse_port raw.port
    node_env ← parse_node_env (or_else raw.node_env "development")
    some (record {
      database_url = database_url;
      redis_url = redis_url;
      jwt_secret = jwt_secret;
      jwt_refresh_secret = jwt_refresh_secret;
      ml_service_url = ml_service_url;
      ml_service_api_key = ml_service_api_key;
      allowed_origin = or_else raw.allowed_origin "";
      run_worker_inline = run_worker_inline;
      port = port;
      node_env = node_env;
    })

  -- `allowedOrigins`
  allowed_origins : Env → List String
  allowed_origins e = if str_eq e.allowed_origin "" then [] else T.comma_separated e.allowed_origin

  pub accepted : Env → Option Env
  unfolding allowed_origins
  accepted e =
      if str_eq e.jwt_secret e.jwt_refresh_secret
      then none
      else (if is_production e.node_env && is_nil (allowed_origins e) then none else some e)

  -- The environment, or none where the process exits.
  start : RawEnv → Option Env
  unfolding accepted
  start raw = parse_env raw >>= accepted

  accepted-some :
      (e e' : Env)
      → accepted e ≡ some e'
      → (e ≡ e')
        × (str_eq e.jwt_secret e.jwt_refresh_secret ≡ false)
        × ((is_production e.node_env && is_nil (allowed_origins e)) ≡ false)
  unfolding accepted
  accepted-some e e' h = elim (Bool-cases (str_eq e.jwt_secret e.jwt_refresh_secret)) [
    | inl same ↦ absurd (let q = rw same at h in cc)
    | inr differ ↦
        let h' = rw differ at h in
        elim (Bool-cases (is_production e.node_env && is_nil (allowed_origins e))) [
          | inl anyone ↦ absurd (let q = rw anyone at h' in cc)
          | inr closed ↦ (some-injective e e' (rw closed at h'), differ, closed)
        ]
  ]

  -- A server that starts has two different secrets for its tokens, and in production a list of the
  -- origins that it lets in.
  start_is_safe :
      (raw : RawEnv) (e : Env)
      → start raw ≡ some e
      → (str_eq e.jwt_secret e.jwt_refresh_secret ≡ false)
        × ((is_production e.node_env ≡ true) → is_nil (allowed_origins e) ≡ false)
  unfolding start
  start_is_safe raw e h =
      let (e', p, a) = bind-some (parse_env raw) accepted e h in
      let (same, differ, closed) = accepted-some e' e a in
      (rw same at differ, λ prod. let c = rw same at closed in ground (arith, c, prod))
