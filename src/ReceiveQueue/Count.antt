-- ===== src/ReceiveQueue/Count.antt =====
-- The length word counts the bytes that wait.
use nps_mux.Base.{
  ℕ, ◌+◌, ◌%◌, ◌^◌, ◌<◌, ◌≡◌, refl, sym, ap, ◌∙◌, arith, Bool, true, false, none, some, List, [],
  ◌∷◌, ◌++◌, ◌==◌,
}
use nps_mux.Dequeue.{unpack, pack}
use nps_mux.Dequeue.Ring.{unpack-pack, pack_lem}
use nps_mux.Chain.Refine.{IsQueue, push-IsQueue, pop-IsQueue_empty, pop-IsQueue_cons, new-IsQueue}
use nps_mux.Window.Word.{flag}
use nps_mux.ReceiveQueue.{
  ListElement, ReceiveQueue, new_receive_queue, receive_push, receive_try_pop, receive_len,
  less_length,
}

-- The bytes of a list of elements.
abbrev pub total : List ListElement → ℕ
total [] = 0
total (e ∷ es) = e.l + total es

pub total-append : (xs ys : List ListElement) → total (xs ++ ys) ≡ total xs + total ys
total-append [] ys = omega arith
total-append (e ∷ xs) ys = omega (arith, total-append xs ys)

-- The queue holds `xs`, oldest first; the word has their bytes and whether a reader waits.
pub record Counts (q : ReceiveQueue) (xs : List ListElement) (wait : Bool) : Type 0 where
  pub queue : IsQueue q.chain xs
  pub word : q.length_wait ≡ pack (total xs) (flag wait)
  pub small : total xs < 2 ^ 32

pub flag_small : (b : Bool) → flag b < 2 ^ 32
flag_small true = omega arith
flag_small false = omega arith

flag_test : (b : Bool) → (flag b == 1) ≡ b
flag_test true = refl
flag_test false = refl

pub new-Counts : Counts new_receive_queue [] false
unfolding new_receive_queue
new-Counts = record {
  queue = new-IsQueue 6 (omega arith);
  word = sym (pack_lem 0 0 (omega arith) (omega arith));
  small = omega arith;
}

-- The same of the word modulo 2^32, which needs no bound on the bytes.
pub record Holds (q : ReceiveQueue) (xs : List ListElement) (wait : Bool) : Type 0 where
  pub queue : IsQueue q.chain xs
  pub word : q.length_wait ≡ pack (total xs % 2 ^ 32) (flag wait)

pub Counts-Holds :
    (q : ReceiveQueue) (xs : List ListElement) (wait : Bool) → Counts q xs wait → Holds q xs wait
Counts-Holds q xs wait h = record {
  queue = h.queue;
  word = h.word ∙ ap (λ (n : ℕ). pack n (flag wait)) (omega (arith, h.small));
}

pub Holds-Counts :
    (q : ReceiveQueue) (xs : List ListElement) (wait : Bool)
    → total xs < 2 ^ 32
    → Holds q xs wait
    → Counts q xs wait
Holds-Counts q xs wait small h = record {
  queue = h.queue;
  word = h.word ∙ ap (λ (n : ℕ). pack n (flag wait)) (omega arith);
  small = small;
}

pub receive_push-Holds :
    (q : ReceiveQueue) (xs : List ListElement) (wait : Bool) (e : ListElement)
    → Holds q xs wait
    → (q' : ReceiveQueue) × (receive_push [] q e ≡ some (q', wait))
      × Holds q' (xs ++ (e ∷ [])) false
unfolding receive_push
receive_push-Holds q xs wait e h =
    let (c, eq, hc) = push-IsQueue q.chain xs e h.queue in
    let sum : (total xs % 2 ^ 32 + e.l) % 2 ^ 32 ≡ total (xs ++ (e ∷ [])) % 2 ^ 32 =
      omega (arith, total-append xs (e ∷ [])) in
    let split : unpack q.length_wait ≡ (total xs % 2 ^ 32, flag wait) =
      ap unpack h.word
      ∙ unpack-pack (total xs % 2 ^ 32) (flag wait) (omega arith) (flag_small wait) in
    (
      record q { length_wait = pack ((total xs % 2 ^ 32 + e.l) % 2 ^ 32) 0; chain = c },
      ground (arith, split, flag_test wait, eq),
      record { queue = hc; word = ap (λ (n : ℕ). pack n 0) sum },
    )

module _ (q : ReceiveQueue) (xs : List ListElement) (wait : Bool) (h : Counts q xs wait) where
  unpacked : unpack q.length_wait ≡ (total xs, flag wait)
  unpacked = rw h.word (unpack-pack (total xs) (flag wait) h.small (flag_small wait))

  -- `Len` is the number of bytes that wait.
  pub receive_len-total : receive_len q ≡ total xs
  unfolding receive_len
  receive_len-total = ap (λ (p : ℕ × ℕ). p.0) unpacked

  -- A push of an element, where the bytes stay below 2^32, adds it at the end and its bytes to the
  -- length word, clears the wait flag, and signals exactly if the flag was set.
  pub receive_push-Counts :
      (e : ListElement)
      → total xs + e.l < 2 ^ 32
      → (q' : ReceiveQueue) × (receive_push [] q e ≡ some (q', wait))
        × Counts q' (xs ++ (e ∷ [])) false
  receive_push-Counts e room =
      let sum : total (xs ++ (e ∷ [])) ≡ total xs + e.l = omega (arith, total-append xs (e ∷ [])) in
      let (q', eq, held) = receive_push-Holds q xs wait e (Counts-Holds q xs wait h) in
      (q', eq, Holds-Counts q' (xs ++ (e ∷ [])) false (omega (arith, sum)) held)

-- The word after `l` bytes are taken.
less_length-wrap :
    (n l w : ℕ) → w < 2 ^ 32 → less_length (pack ((l + n) % 2 ^ 32) w) l ≡ pack (n % 2 ^ 32) w
unfolding less_length
less_length-wrap n l w hw = omega (
  arith,
  pack_lem ((l + n) % 2 ^ 32) w (omega arith) hw,
  pack_lem (n % 2 ^ 32) w (omega arith) hw,
)

pub receive_try_pop-first :
    (q : ReceiveQueue) (e : ListElement) (xs : List ListElement) (wait : Bool)
    → Holds q (e ∷ xs) wait
    → (q' : ReceiveQueue) × (receive_try_pop q ≡ some (q', some e)) × Holds q' xs wait
unfolding receive_try_pop
receive_try_pop-first q e xs wait h =
    let (c, eq, hc) = pop-IsQueue_cons q.chain e xs h.queue in
    (
      record q { length_wait = less_length q.length_wait e.l; chain = c },
      rw eq,
      record {
        queue = hc;
        word =
            ap (λ (n : ℕ). less_length n e.l) h.word
            ∙ less_length-wrap (total xs) e.l (flag wait) (flag_small wait);
      },
    )

pub receive_try_pop_empty :
    (q : ReceiveQueue) (wait : Bool)
    → Holds q [] wait
    → (q' : ReceiveQueue) × (receive_try_pop q ≡ some (q', none)) × Holds q' [] wait
unfolding receive_try_pop
receive_try_pop_empty q wait h =
    let (c, eq, hc) = pop-IsQueue_empty q.chain h.queue in
    (record q { chain = c }, rw eq, record { queue = hc; word = h.word })

pub receive_try_pop-cons :
    (q : ReceiveQueue) (e : ListElement) (xs : List ListElement) (wait : Bool)
    → Counts q (e ∷ xs) wait
    → (q' : ReceiveQueue) × (receive_try_pop q ≡ some (q', some e)) × Counts q' xs wait
receive_try_pop-cons q e xs wait h =
    let (q', eq, held) = receive_try_pop-first q e xs wait (Counts-Holds q (e ∷ xs) wait h) in
    (q', eq, Holds-Counts q' xs wait (omega (arith, h.small)) held)

pub receive_try_pop-nil :
    (q : ReceiveQueue) (wait : Bool)
    → Counts q [] wait
    → (q' : ReceiveQueue) × (receive_try_pop q ≡ some (q', none)) × Counts q' [] wait
receive_try_pop-nil q wait h =
    let (q', eq, held) = receive_try_pop_empty q wait (Counts-Holds q [] wait h) in
    (q', eq, Holds-Counts q' [] wait (omega arith) held)
