-- ===== src/Analytics/Network/Closed.antt =====
-- What the graph of accounts contains.
use text.Mathlib.Text.{◌==◌ as str_eq}
use text.Mathlib.TextPositions.{eq_refl}
use text.Mathlib.TextEquality.{eq_iff}
use transactguard.Prelude.{
  ℕ, ◌+◌, length, map, ◌≡◌, refl, ◌∙◌, ap, inl, inr, arith, String, Bool, true, false, not, ◌&&◌,
  ◌||◌, List, [], ◌∷◌, ◌++◌, if◌then◌else◌, All, All-append, filter, take, Bool-cases,
}
use transactguard.Analytics.{Row}
use transactguard.Analytics.Network.{
  has, is_flagged, degree, parties, repeated, touches, Node, ids, new_node, touch, touch_all,
  edges_of, get_network,
}

-- No account twice.
abbrev pub distinct : List String → Bool
distinct [] = true
distinct (a ∷ rest) = not (has a rest) && distinct rest

has-append : (a b : String) (xs : List String) → has a (xs ++ (b ∷ [])) ≡ (has a xs || str_eq a b)
has-append a b [] = ground arith
has-append a b (x ∷ xs) = ground (arith, has-append a b xs)

str_eq_sym : (a b : String) → str_eq a b ≡ false → str_eq b a ≡ false
str_eq_sym a b h = elim (Bool-cases (str_eq b a)) [
  | inl e ↦
      absurd
        (let k = (eq_iff b a).0 e in let h' = rw k at h in ground (arith, h', eq_refl a, eq_refl b))
  | inr n ↦ n
]

distinct-append :
    (b : String) (xs : List String)
    → has b xs ≡ false
    → distinct xs ≡ true
    → distinct (xs ++ (b ∷ [])) ≡ true
distinct-append b [] h d = refl
distinct-append b (x ∷ xs) h d =
    let n = str_eq_sym b x (ground (arith, h)) in
    ground
      (arith, has-append x b xs, distinct-append b xs (ground (arith, h)) (ground (arith, d)), n, d)

has-already :
    (a b : String) (xs : List String) → has a xs ≡ true → has b xs ≡ (has b xs || str_eq b a)
has-already a b xs h = elim (Bool-cases (str_eq b a)) [
  | inl e ↦ let k = (eq_iff b a).0 e in let here = ap (λ c. has c xs) k ∙ h in ground (arith, here)
  | inr n ↦ ground (arith, n)
]

All-filter : (p : Row → Bool) (rows : List Row) → All (λ r. p r ≡ true) (filter p rows)
All-filter p [] = tt
All-filter p (r ∷ rows) = elim (Bool-cases (p r)) [
  | inl t ↦ rw t (t, All-filter p rows)
  | inr f ↦ rw f (All-filter p rows)
]

edges_touch :
    (flagged : List Row) (hubs : List String)
    → All (λ e. touches hubs e ≡ true) (edges_of flagged hubs)
unfolding edges_of
edges_touch flagged [] = tt
edges_touch flagged (a ∷ rest) = All-filter (touches (a ∷ rest)) flagged

ids-append : (nodes : List Node) (n : Node) → ids (nodes ++ (n ∷ [])) ≡ ids nodes ++ (n.id ∷ [])
ids-append [] n = refl
ids-append (m ∷ nodes) n = ap (λ l. m.id ∷ l) (ids-append nodes n)

abbrev once_if : Bool → ℕ
once_if true = 1
once_if false = 0

-- How often the account stands as the sender or as the recipient of one of the transactions.
abbrev pub appearances : String → List Row → ℕ
appearances a [] = 0
appearances a (r ∷ rows) =
    once_if (str_eq a r.t.sender_id) + once_if (str_eq a r.t.receiver_id) + appearances a rows

length-filter-append :
    (p : String → Bool) (xs ys : List String)
    → length (filter p (xs ++ ys)) ≡ length (filter p xs) + length (filter p ys)
length-filter-append p [] ys = omega arith
length-filter-append p (x ∷ xs) ys = ground (arith, length-filter-append p xs ys)

length-filter-cons :
    (p : String → Bool) (x : String) (xs : List String)
    → length (filter p (x ∷ xs)) ≡ once_if (p x) + length (filter p xs)
length-filter-cons p x xs = ground arith

degree_lem : (a : String) (rows : List Row) → degree a rows ≡ appearances a rows
unfolding degree parties
degree_lem a [] = refl
degree_lem a (r ∷ rows) =
    let senders = map (λ (r : Row). r.t.sender_id) rows in
    let receivers = map (λ (r : Row). r.t.receiver_id) rows in
    let all =
      length-filter-append (str_eq a) (r.t.sender_id ∷ senders) (r.t.receiver_id ∷ receivers) in
    let front = length-filter-cons (str_eq a) r.t.sender_id senders in
    let back = length-filter-cons (str_eq a) r.t.receiver_id receivers in
    let rest = length-filter-append (str_eq a) senders receivers in
    let ih = degree_lem a rows in omega (arith, all, front, back, rest, ih)

module _ (flagged : List Row) (hubs : List String) where
  -- A node is what the list of hubs makes of its account.
  abbrev pub Marked : Node → Type 0
  Marked n =
      (n.hub ≡ has n.id hubs) × (n.degree ≡ (if has n.id hubs then appearances n.id flagged else 1))

  -- The nodes so far.
  abbrev Sound : List Node → Type 0
  Sound nodes = (distinct (ids nodes) ≡ true) × All Marked nodes

  touch-Sound : (a : String) (nodes : List Node) → Sound nodes → Sound (touch flagged hubs a nodes)
  unfolding touch new_node
  touch-Sound a nodes (d, m) = elim (Bool-cases (has a (ids nodes))) [
    | inl there ↦ rw there (d, m)
    | inr fresh ↦ rw fresh (
      ap distinct (ids-append nodes (new_node flagged hubs a))
          ∙ distinct-append a (ids nodes) fresh d,
      All-append Marked nodes (new_node flagged hubs a ∷ []) m
          ((refl, ap (λ d. if has a hubs then d else 1) (degree_lem a flagged)), tt),
    )
  ]

  touch-has :
      (a b : String) (nodes : List Node)
      → has b (ids (touch flagged hubs a nodes)) ≡ (has b (ids nodes) || str_eq b a)
  unfolding touch new_node
  touch-has a b nodes = elim (Bool-cases (has a (ids nodes))) [
    | inl there ↦ rw there (has-already a b (ids nodes) there)
    | inr fresh ↦
        rw fresh
          (ap (has b) (ids-append nodes (new_node flagged hubs a)) ∙ has-append b a (ids nodes))
  ]

  touch_all-Sound :
      (edges : List Row) (nodes : List Node)
      → Sound nodes
      → Sound (touch_all flagged hubs edges nodes)
  unfolding touch_all
  touch_all-Sound [] nodes h = h
  touch_all-Sound (e ∷ edges) nodes h =
      touch_all-Sound edges
        (touch flagged hubs e.t.receiver_id (touch flagged hubs e.t.sender_id nodes))
        (touch-Sound e.t.receiver_id (touch flagged hubs e.t.sender_id nodes)
          (touch-Sound e.t.sender_id nodes h))

  -- What is a node stays one.
  touch_all-has :
      (edges : List Row) (b : String) (nodes : List Node)
      → has b (ids nodes) ≡ true
      → has b (ids (touch_all flagged hubs edges nodes)) ≡ true
  unfolding touch_all
  touch_all-has [] b nodes h = h
  touch_all-has (e ∷ edges) b nodes h =
      let one = touch flagged hubs e.t.sender_id nodes in
      touch_all-has edges b (touch flagged hubs e.t.receiver_id one)
        (ground (arith, touch-has e.t.receiver_id b one, touch-has e.t.sender_id b nodes, h))

  abbrev pub EndsIn : List Node → Row → Type 0
  EndsIn nodes e = (has e.t.sender_id (ids nodes) ≡ true) × (has e.t.receiver_id (ids nodes) ≡ true)

  touch_all-EndsIn :
      (edges : List Row) (nodes : List Node)
      → All (EndsIn (touch_all flagged hubs edges nodes)) edges
  unfolding touch_all
  touch_all-EndsIn [] nodes = tt
  touch_all-EndsIn (e ∷ edges) nodes =
      let one = touch flagged hubs e.t.sender_id nodes in
      let both = touch flagged hubs e.t.receiver_id one in
      let s : has e.t.sender_id (ids both) ≡ true = ground (
        arith,
        touch-has e.t.receiver_id e.t.sender_id one,
        touch-has e.t.sender_id e.t.sender_id nodes,
        eq_refl e.t.sender_id,
      ) in
      let r : has e.t.receiver_id (ids both) ≡ true =
        ground (arith, touch-has e.t.receiver_id e.t.receiver_id one, eq_refl e.t.receiver_id) in
      (
        (touch_all-has edges e.t.sender_id both s, touch_all-has edges e.t.receiver_id both r),
        touch_all-EndsIn edges both,
      )

-- The graph that is sent is a graph: no account is a node twice, both ends of every edge are nodes,
-- every edge has one of the shown hubs at an end, a node is marked as a hub exactly if it is one of
-- these, and its degree is then how often it stands as the sender or as the recipient of a flagged
-- transaction (one that it sends to itself counts twice), and otherwise 1.
pub get_network_is_a_graph :
    (arrange : List String → List String) (limit : ℕ) (rows : List Row)
    → let flagged = filter is_flagged rows in
      let hubs = take limit (arrange (repeated flagged)) in
      let network = get_network arrange limit rows in
      (distinct (ids network.nodes) ≡ true)
      × All (EndsIn flagged hubs network.nodes) network.edges
      × All (λ e. touches hubs e ≡ true) network.edges
      × All (Marked flagged hubs) network.nodes
unfolding get_network
get_network_is_a_graph arrange limit rows =
    let flagged = filter is_flagged rows in
    let hubs = take limit (arrange (repeated flagged)) in
    let edges = edges_of flagged hubs in
    let sound = touch_all-Sound flagged hubs edges [] (refl, tt) in
    (sound.0, touch_all-EndsIn flagged hubs edges [], edges_touch flagged hubs, sound.1)
