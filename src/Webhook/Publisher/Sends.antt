-- ===== src/Webhook/Publisher/Sends.antt =====
-- internal/webhook/publisher.go: the publisher's invariant, and the steps that send to a channel.
use mathlib.Core.List.{append_assoc}
use hexmagnet.Prelude.{
  ℕ, suc, ◌+◌, ◌≤◌, ◌≡◌, ◌≢◌, refl, sym, ap, ◌∙◌, Bool, true, ltb, ltb→lt, if◌then◌else◌,
  Bool-cases, inl, inr, List, [], ◌∷◌, ◌++◌, length, length-append, Option, none, some, arith,
}
use hexmagnet.Webhook.{Outside, Config, Envelope}
use hexmagnet.Webhook.Publisher.{
  waiting, System, update, try_send, after_publish, publish, after_move, move, store_filter,
  new_publisher, initial,
}

-- How many envelopes pass a test.
abbrev pub count : (Envelope → Bool) → List Envelope → ℕ
count p [] = 0
count p (e ∷ es) = (if p e then 1 else 0) + count p es

pub count-append :
    (p : Envelope → Bool) (xs ys : List Envelope) → count p (xs ++ ys) ≡ count p xs + count p ys
count-append p [] ys = omega arith
count-append p (x ∷ xs) ys = omega (arith, count-append p xs ys)

-- What a resize has still to move.
abbrev pub held : Option ℕ → (ℕ → List Envelope) → List Envelope
held none channels = []
held (some k) channels = channels k

pub record IsSafe (s : System) : Type 0 where
  pub stale : (n : ℕ) → n ≢ s.publisher.queue → s.writer ≢ some n → s.publisher.channels n ≡ []
  pub writes : (n : ℕ) → s.writer ≡ some n → suc n ≡ s.publisher.queue
  pub woken :
      (k : ℕ)
      → s.phase ≡ waiting k
      → k ≢ s.publisher.queue
      → s.writer ≡ none
      → s.publisher.wake ≡ true
  pub bound :
      length (s.publisher.channels s.publisher.queue) ≤ s.publisher.capacity s.publisher.queue
  pub conserved :
      (p : Envelope → Bool)
      → count p s.accepted
        ≡ count p s.received
          + count p (s.publisher.channels s.publisher.queue)
          + count p (held s.writer s.publisher.channels)
          + count p s.dropped
  pub ordered : s.publisher.queue ≡ 0 → s.accepted ≡ s.received ++ s.publisher.channels 0

pub initial-IsSafe : (o : Outside) (cfg : Config) → IsSafe (initial o cfg)
unfolding initial new_publisher store_filter
initial-IsSafe o cfg = record {
  stale = λ n h g. refl;
  writes = λ n h. cc;
  woken = λ k h g e. cc;
  bound = omega arith;
  conserved = λ p. refl;
  ordered = λ h. refl;
}

module _ {ℓ} {A : Type ℓ} where
  pub update_same : (f : ℕ → A) (k j : ℕ) (v : A) → k ≡ j → update f k v j ≡ v
  update_same f k j v h = ground arith

  pub update_other : (f : ℕ → A) (k j : ℕ) (v : A) → (j ≡ k → ⊥) → update f k v j ≡ f j
  update_other f k j v h = ground arith

-- A new envelope at the end of the queue's channel.
pub publish-IsSafe :
    (s : System) (m : Option Envelope) → s.writer ≡ none → IsSafe s → IsSafe (publish m s)
unfolding publish try_send after_publish
publish-IsSafe s none free v = v
publish-IsSafe s (some e) free v =
    elim (Bool-cases (ltb (length (ch q)) (s.publisher.capacity q))) [
      | inr full ↦ rw full v
      | inl room ↦ rw room (record {
        stale = λ n h g. update_other ch q n longer h ∙ v.stale n h g;
        writes = v.writes;
        woken = v.woken;
        bound = omega (
          arith,
          ap length (update_same ch q q longer refl),
          length-append (ch q) (e ∷ []),
          ltb→lt _ _ room,
          v.bound,
        );
        conserved = λ p. omega (
          arith,
          v.conserved p,
          ap (count p) (update_same ch q q longer refl),
          count-append p (ch q) (e ∷ []),
          count-append p s.accepted (e ∷ []),
          ap (λ w. count p (held w ch)) free,
          ap (λ w. count p (held w (update ch q longer))) free,
        );
        ordered = λ z.
            ap (λ l. l ++ e ∷ []) (v.ordered z)
            ∙ (append_assoc s.received (ch 0) (e ∷ [])
                ∙ ap (λ l. s.received ++ l)
                    (sym (update_same ch q 0 longer z ∙ ap (λ (k : ℕ). ch k ++ e ∷ []) z)));
      })
    ]
  where
    q : ℕ
    q = s.publisher.queue

    ch : ℕ → List Envelope
    ch = s.publisher.channels

    longer : List Envelope
    longer = ch q ++ e ∷ []

pub writer-publish : (s : System) (m : Option Envelope) → (publish m s).writer ≡ s.writer
unfolding publish try_send after_publish
writer-publish s none = refl
writer-publish s (some e) = ground arith

-- The first envelope of the old channel goes to the new one, or is dropped.
pub move-IsSafe :
    (s : System) (old : ℕ) (e : Envelope) (rest : List Envelope)
    → s.writer ≡ some old
    → s.publisher.channels old ≡ e ∷ rest
    → IsSafe s
    → IsSafe (move old rest e s)
unfolding move try_send after_move
move-IsSafe s old e rest busy first v =
    elim (Bool-cases (ltb (length (ch q)) (s.publisher.capacity q))) [
      | inr full ↦ rw full (record {
        stale = λ n h g. update_other ch old n rest (apart n g) ∙ v.stale n h g;
        writes = v.writes;
        woken = v.woken;
        bound = omega (arith, ap length (update_other ch old q rest new), v.bound);
        conserved = λ p. omega (
          arith,
          v.conserved p,
          ap (count p) first,
          ap (count p) (update_other ch old q rest new),
          ap (count p) (update_same ch old old rest refl),
          count-append p s.dropped (e ∷ []),
          ap (λ w. count p (held w ch)) busy,
          ap (λ w. count p (held w (update ch old rest))) busy,
        );
        ordered = λ z. absurd (omega (arith, v.writes old busy));
      })
      | inl room ↦ rw room (record {
        stale = λ n h g.
            update_other sent old n rest (apart n g)
            ∙ (update_other ch q n longer h ∙ v.stale n h g);
        writes = v.writes;
        woken = v.woken;
        bound = omega (
          arith,
          ap length (update_other sent old q rest new),
          ap length (update_same ch q q longer refl),
          length-append (ch q) (e ∷ []),
          ltb→lt _ _ room,
        );
        conserved = λ p. omega (
          arith,
          v.conserved p,
          ap (count p) first,
          ap (count p) (update_other sent old q rest new),
          ap (count p) (update_same ch q q longer refl),
          ap (count p) (update_same sent old old rest refl),
          count-append p (ch q) (e ∷ []),
          ap (λ w. count p (held w ch)) busy,
          ap (λ w. count p (held w (update sent old rest))) busy,
        );
        ordered = λ z. absurd (omega (arith, v.writes old busy));
      })
    ]
  where
    q : ℕ
    q = s.publisher.queue

    ch : ℕ → List Envelope
    ch = s.publisher.channels

    longer : List Envelope
    longer = ch q ++ e ∷ []

    sent : ℕ → List Envelope
    sent = update ch q longer

    new : q ≡ old → ⊥
    new h = omega (arith, v.writes old busy)

    apart : (n : ℕ) → s.writer ≢ some n → n ≡ old → ⊥
    apart n g h = g (busy ∙ ap some (sym h))
