-- ===== src/Mux/Shuts.antt =====
-- `connMap.Close`: the loop over the keys closes each connection that it finds.
use nps_mux.Base.{
  ℕ, ◌≡◌, ◌≢◌, refl, ap, ◌∙◌, subst, arith, true, false, none, some, List, [], ◌∷◌, mem, get_elem?,
  get_elem?-set_ne, set, if◌then◌else◌, Option-cases, inl, inr,
}
use native.Mathlib.Decide.{ℕ_discrete}
use nps_mux.ConnMap.{lookup, delete_conn}
use nps_mux.ConnMap.Laws.{lookup-delete_conn}
use nps_mux.Mux.{Conn, Mux, close_conns}
use nps_mux.Mux.CloseConn.{Closed, get_elem?-set, close_once_lem}
use nps_mux.Mux.WellFormed.{WellFormed, Follows, shut-Follows, self-Follows, then_Follows}

-- What the loop of `connMap.Close` does.
pub record Shuts (order : List ℕ) (m : Mux) (h : WellFormed m) (m' : Mux) : Type 0 where
  pub follows : Follows m h m'
  pub rest : m' ≡ record m { conns = m'.conns; conn_map = m'.conn_map }
  pub gone : (i : ℕ) → lookup m'.conn_map i ≡ (if mem i order then none else lookup m.conn_map i)
  pub keeps :
      (ptr : ℕ) (c : Conn)
      → get_elem? m.conns ptr ≡ some c
      → c.is_close ≡ true
      → get_elem? m'.conns ptr ≡ some c
  pub shuts :
      (i ptr : ℕ) (c : Conn)
      → lookup m.conn_map i ≡ some (some ptr)
      → get_elem? m.conns ptr ≡ some c
      → mem i order ≡ true
      → (c' : Conn) × (get_elem? m'.conns ptr ≡ some c') × Closed c c'

abbrev after : Mux → ℕ → Conn → Conn → Mux
after m ptr c c₁ = record m {
  conns = set m.conns ptr c₁;
  conn_map = delete_conn m.conn_map c.conn_id;
}

-- One round: the entry `id`, which holds `c`.
module _ (id : ℕ) (order : List ℕ) (m : Mux) (h : WellFormed m) (ptr : ℕ) (c c₁ : Conn)
    (found : lookup m.conn_map id ≡ some (some ptr)) (stored : get_elem? m.conns ptr ≡ some c)
    (named : c.conn_id ≡ id) (is_open : c.is_close ≡ false) (d : Closed c c₁) (m' : Mux)
    (first : Follows m h (after m ptr c c₁)) where
  then-Shuts : Shuts order (after m ptr c c₁) first.sound m' → Shuts (id ∷ order) m h m'
  then-Shuts s = record {
    follows = then_Follows first s.follows;
    rest = s.rest;
    gone = λ i. gone_still i;
    keeps = λ p x e shut. keeps_still p x e shut;
    shuts = λ i p x f e ordered. shuts_still i p x f e ordered;
  }
    where
      gone_still :
          (i : ℕ)
          → lookup m'.conn_map i ≡ (if mem i (id ∷ order) then none else lookup m.conn_map i)
      gone_still i = ground (arith, s.gone i, lookup-delete_conn m.conn_map c.conn_id i, named)

      keeps_still :
          (p : ℕ) (x : Conn)
          → get_elem? m.conns p ≡ some x
          → x.is_close ≡ true
          → get_elem? m'.conns p ≡ some x
      keeps_still p x e shut =
          let apart : ptr ≢ p = λ same. absurd (ground (arith, e, shut, stored, same, is_open)) in
          s.keeps p x (get_elem?-set_ne m.conns c₁ apart ∙ e) shut

      shuts_still :
          (i p : ℕ) (x : Conn)
          → lookup m.conn_map i ≡ some (some p)
          → get_elem? m.conns p ≡ some x
          → mem i (id ∷ order) ≡ true
          → (c' : Conn) × (get_elem? m'.conns p ≡ some c') × Closed x c'
      shuts_still i p x f e ordered = elim (ℕ_discrete id i) [
        | yes same ↦
            let same_ptr : ptr ≡ p = ground (arith, found, f, same) in
            let same_conn : c ≡ x = ground (arith, stored, e, same_ptr) in
            (
              c₁,
              subst (λ t. get_elem? m'.conns t ≡ some c₁) same_ptr
                  (s.keeps ptr c₁ (get_elem?-set m.conns ptr c c₁ stored) d.is_close),
              subst (λ t. Closed t c₁) same_conn d,
            )
        | no other ↦
            let old = h.entries i (some p) f in
            let id_of : x.conn_id ≡ i = ground (arith, e, old.stored, old.value, old.conn_id) in
            let apart : ptr ≢ p = λ same. other (ground (arith, e, stored, same, id_of, named)) in
            s.shuts i p x
              (ground (arith, f, other, named, lookup-delete_conn m.conn_map c.conn_id i))
              (get_elem?-set_ne m.conns c₁ apart ∙ e) (ground (arith, ordered, other))
      ]

skips :
    (id : ℕ) (order : List ℕ) (m : Mux) (h : WellFormed m) (m' : Mux)
    → lookup m.conn_map id ≡ none
    → Shuts order m h m'
    → Shuts (id ∷ order) m h m'
skips id order m h m' missing s = record {
  follows = s.follows;
  rest = s.rest;
  gone = λ i. gone_still i;
  keeps = s.keeps;
  shuts = λ i p c f e ordered. s.shuts i p c f e (ordered_still i p f ordered);
}
  where
    gone_still :
        (i : ℕ) → lookup m'.conn_map i ≡ (if mem i (id ∷ order) then none else lookup m.conn_map i)
    gone_still i = elim (ℕ_discrete id i) [
      | yes same ↦ ground (arith, s.gone i, missing, same)
      | no other ↦ ground (arith, s.gone i, other)
    ]

    ordered_still :
        (i p : ℕ)
        → lookup m.conn_map i ≡ some (some p)
        → mem i (id ∷ order) ≡ true
        → mem i order ≡ true
    ordered_still i p f ordered = elim (ℕ_discrete id i) [
      | yes same ↦ absurd (ground (arith, f, missing, same))
      | no other ↦ ground (arith, ordered, other)
    ]

pub close_conns-Shuts :
    (order : List ℕ) (m : Mux)
    → (h : WellFormed m) → m.is_close ≡ true
    → (m' : Mux) × (close_conns order m ≡ some m') × Shuts order m h m'
unfolding close_conns
close_conns-Shuts [] m h shut = (
  m,
  refl,
  record {
    follows = self-Follows m h;
    rest = refl;
    gone = λ i. refl;
    keeps = λ ptr c e closed. e;
    shuts = λ i ptr c f e ordered. absurd (ground (arith, ordered));
  },
)
close_conns-Shuts (id ∷ order) m h shut = elim (Option-cases (lookup m.conn_map id)) [
  | inl missing ↦
      let (m', eq, s) = close_conns-Shuts order m h shut in
      (m', ground (arith, missing, eq), skips id order m h m' missing s)
  | inr (v, there) ↦
      let entry = h.entries id v there in
      let found : lookup m.conn_map id ≡ some (some entry.ptr) = there ∙ ap some entry.value in
      let (c₁, eq, d) =
        close_once_lem (λ n i. some n) m entry.ptr entry.conn entry.stored
          (h.healthy entry.ptr entry.conn entry.stored) entry.fresh m.write_queue
          (ground (arith, shut)) in
      let first =
        shut-Follows m h entry.ptr entry.conn c₁ entry.stored (h.apart id entry.ptr found) d
          m.write_queue h.view h.messages in
      let (m', eq', s) =
        close_conns-Shuts order (after m entry.ptr entry.conn c₁) first.sound shut in
      (
        m',
        ground (arith, found, eq, eq'),
        then-Shuts id order m h entry.ptr entry.conn c₁ found entry.stored entry.conn_id
            entry.is_open d m' first s,
      )
]
