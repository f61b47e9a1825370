-- ===== src/Client/Calls/Kept.antt =====
-- No candidate is lost before a call ends.
use corcy.Prelude.{
  ℕ, ◌+◌, ◌≡◌, refl, inl, inr, Bool, true, ◌==◌, Option, none, some, List, [], ◌∷◌, ◌++◌, is_some,
  arith, Bool-cases, Option-cases,
}
use corcy.Store.Table.{count}
use corcy.Client.Calls.{
  CallState, idle, create_peer_connection, add_ice_candidate, begin_flush, flush_rest, flush_next,
}

-- What may happen in one call, in any order: the flush begins once there is a connection, and a
-- connection is made once.
pub data CallStep (s : CallState) : List ℕ → CallState → Type 0 where
  connects : (s.pc ≡ none) → CallStep s [] (create_peer_connection s)
  receives : (candidate : ℕ) → CallStep s (candidate ∷ []) (add_ice_candidate candidate s)
  flushes : (is_some s.pc ≡ true) → CallStep s [] (begin_flush s)
  hands : CallStep s [] (flush_next s)

-- The states of one call, with the candidates received, the latest first.
pub data InCall : List ℕ → CallState → Type 0 where
  begins : InCall [] idle
  goes : {cs ds : List ℕ} {s v : CallState} → InCall cs s → CallStep s ds v → InCall (ds ++ cs) v

abbrev pub handed : Option (List ℕ) → List ℕ
handed none = []
handed (some cs) = cs

abbrev pub is : ℕ → ℕ → Bool
is c d = d == c

record Keeps (cs : List ℕ) (s : CallState) : Type 0 where
  all :
      (c : ℕ)
      → count (is c) cs
        ≡ count (is c) (handed s.pc) + count (is c) s.flushing + count (is c) s.buffer
  ready : s.remote_desc_set ≡ true → is_some s.pc ≡ true
  early : s.pc ≡ none → s.flushing ≡ []

count-append : (p : ℕ → Bool) (xs ys : List ℕ) → count p (xs ++ ys) ≡ count p xs + count p ys
unfolding count
count-append p [] ys = omega arith
count-append p (x ∷ xs) ys = ground (arith, count-append p xs ys)

module _ (cs : List ℕ) (s : CallState) (h : Keeps cs s) where
  connect-Keeps : s.pc ≡ none → Keeps cs (create_peer_connection s)
  unfolding create_peer_connection
  connect-Keeps none_yet = record {
    all = λ c. let before = h.all c in rw none_yet at before;
    ready = λ _. refl;
    early = λ e. absurd (cc e);
  }

  receive-Keeps : (d : ℕ) → Keeps (d ∷ cs) (add_ice_candidate d s)
  receive-Keeps d = elim (Bool-cases s.remote_desc_set) [
    | inr waits ↦
        unfold add_ice_candidate in
        rw waits (record {
          all = λ c. unfold count in ground (arith, h.all c, count-append (is c) s.buffer (d ∷ []));
          ready = λ e. absurd (cc e);
          early = h.early;
        })
    | inl set ↦ elim (Option-cases s.pc) [
      | inl missing ↦ absurd (ground (arith, missing, h.ready set))
      | inr (ds, there) ↦
          unfold add_ice_candidate in
          rw (set, there)
            (record {
              all = λ c.
                  unfold count in ground (arith, there, h.all c, count-append (is c) ds (d ∷ []));
              ready = λ _. refl;
              early = λ e. absurd (cc e);
            })
    ]
  ]

  flush-Keeps : is_some s.pc ≡ true → Keeps cs (begin_flush s)
  unfolding begin_flush
  flush-Keeps there = record {
    all = λ c. unfold count in ground (arith, h.all c, count-append (is c) s.flushing s.buffer);
    ready = λ _. there;
    early = λ e. absurd (ground (arith, e, there));
  }

  hand_rest-Keeps : (fs : List ℕ) → s.flushing ≡ fs → Keeps cs (flush_rest fs s)
  hand_rest-Keeps [] e = h
  hand_rest-Keeps (d ∷ rest) e = elim (Option-cases s.pc) [
    | inl missing ↦ absurd (ground (arith, e, h.early missing))
    | inr (ds, there) ↦ rw there (record {
      all = λ c. unfold count in ground (arith, there, e, h.all c, count-append (is c) ds (d ∷ []));
      ready = λ _. refl;
      early = λ e. absurd (cc e);
    })
  ]

  hand-Keeps : Keeps cs (flush_next s)
  unfolding flush_next
  hand-Keeps = hand_rest-Keeps s.flushing refl

step-Keeps : {cs ds : List ℕ} {s v : CallState} → CallStep s ds v → Keeps cs s → Keeps (ds ++ cs) v
step-Keeps {cs} {s = s} (connects none_yet) h = connect-Keeps cs s h none_yet
step-Keeps {cs} {s = s} (receives d) h = receive-Keeps cs s h d
step-Keeps {cs} {s = s} (flushes there) h = flush-Keeps cs s h there
step-Keeps {cs} {s = s} hands h = hand-Keeps cs s h

InCall-Keeps : {cs : List ℕ} {s : CallState} → InCall cs s → Keeps cs s
unfolding count
InCall-Keeps begins = record {
  all = λ c. omega arith;
  ready = λ e. absurd (cc e);
  early = λ _. refl;
}
InCall-Keeps (goes r step) = step-Keeps step (InCall-Keeps r)

-- In one call, however the arrivals of candidates and the rounds of the flush are interleaved, every
-- candidate received was handed to the connection or still waits, as often as it came.
pub InCall-kept :
    {cs : List ℕ} {s : CallState}
    → InCall cs s
    → (c : ℕ)
    → count (is c) cs ≡ count (is c) (handed s.pc) + count (is c) s.flushing + count (is c) s.buffer
InCall-kept r = (InCall-Keeps r).all
