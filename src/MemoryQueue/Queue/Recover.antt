-- ===== src/MemoryQueue/Queue/Recover.antt =====
-- internal/queue/memoryqueue/queue.go: what a queue writes, and the queue that reads it again.
use Prim.Native.String.{String}
use mathlib.Core.Option.{some-injective}
use hexmagnet.Prelude.{
  ◌≡◌, refl, sym, ◌∙◌, ap, subst, inl, inr, Bool, true, false, if◌then◌else◌, Bool-cases, List, [],
  ◌∷◌, none, some, ◌>>=◌, lookup, insert, lookup-insert, string_eq, Distinct,
}
use hexmagnet.MemoryQueue.Topic.{Message, TopicState, TopicSnapshot, default_capacity}
use hexmagnet.MemoryQueue.Topic.Ring.{IsTopic, serialize-IsTopic}
use hexmagnet.MemoryQueue.Topic.Restore.{Recovered, snapshot, recover_topic-Recovered}
use hexmagnet.MemoryQueue.Queue.{snapshots, recover_topics}

abbrev pub Topics : Type 0
Topics = List (String × TopicState)

abbrev pub AllTopics : Topics → Type 0
AllTopics [] = Unit
AllTopics ((name, ts) ∷ topics) =
    ((xs : List Message) × (IsTopic ts xs × (ts.capacity ≡ default_capacity))) × AllTopics topics

-- The topics that are read back, over those that were there.
pub record Reread (topics base found : Topics) : Type 0 where
  pub absent : (name : String) → lookup name topics ≡ none → lookup name found ≡ lookup name base
  pub present :
      (name : String) (ts : TopicState)
      → lookup name topics ≡ some ts
      → (xs : List Message) × (ts' : TopicState) × (IsTopic ts xs
          × ((lookup name found ≡ some ts') × Recovered ts ts' xs))

module _ (name : String) (ts : TopicState) (topics base found : Topics) (ts' : TopicState)
    (xs : List Message) (d : lookup name topics ≡ none) (t : IsTopic ts xs)
    (r : Recovered ts ts' xs) (rest : Reread topics (insert name ts' base) found) where
  Reread-cons : Reread ((name, ts) ∷ topics) base found
  unfolding lookup
  Reread-cons = record { absent = absent; present = present }
    where
      at_entry :
          (other : String) (b : Bool)
          → string_eq.beq name other ≡ b
          → lookup other ((name, ts) ∷ topics) ≡ (if b then some ts else lookup other topics)
      at_entry other b e = ap (λ c. if c then some ts else lookup other topics) e

      clash : some ts ≡ none → ⊥
      clash e = cc

      absent :
          (other : String)
          → lookup other ((name, ts) ∷ topics) ≡ none
          → lookup other found ≡ lookup other base
      absent other h = elim (Bool-cases (string_eq.beq name other)) [
        | inl e ↦ absurd (clash (sym (at_entry other true e) ∙ h))
        | inr e ↦
            rest.absent other (sym (at_entry other false e) ∙ h)
            ∙ (lookup-insert name other ts' base
                ∙ ap (λ b. if b then some ts' else lookup other base) e)
      ]

      present :
          (other : String) (at_other : TopicState)
          → lookup other ((name, ts) ∷ topics) ≡ some at_other
          → (ys : List Message) × (again : TopicState) × (IsTopic at_other ys
              × ((lookup other found ≡ some again) × Recovered at_other again ys))
      present other at_other h = elim (Bool-cases (string_eq.beq name other)) [
        | inr e ↦ rest.present other at_other (sym (at_entry other false e) ∙ h)
        | inl e ↦
            subst
              (λ k.
                (ys : List Message) × (again : TopicState) × (IsTopic k ys
                  × ((lookup other found ≡ some again) × Recovered k again ys)))
              (some-injective ts at_other (sym (at_entry other true e) ∙ h))
              (
                xs,
                ts',
                (
                  t,
                  (
                    rest.absent other
                          (ap (λ k. lookup k topics) (sym ((string_eq.beq_iff name other).0 e)) ∙ d)
                        ∙ (lookup-insert name other ts' base
                            ∙ ap (λ b. if b then some ts' else lookup other base) e),
                    r,
                  ),
                ),
              )
      ]

pub reread :
    (topics base : Topics)
    → Distinct topics
    → AllTopics topics
    → (snaps : List (String × TopicSnapshot)) × (snapshots topics ≡ some snaps)
      × ((found : Topics) × (recover_topics snaps base ≡ some found) × Reread topics base found)
unfolding snapshots recover_topics lookup
reread [] base d a = (
  [],
  refl,
  (base, refl, record { absent = λ name h. refl; present = λ name ts h. absurd (clash h) }),
)
  where
    clash : {ts : TopicState} → none ≡ some ts → ⊥
    clash e = cc
reread ((name, ts) ∷ topics) base d a =
    let r = recover_topic-Recovered ts a.0.0 a.0.1.0 a.0.1.1 in
    let rest = reread topics (insert name r.0 base) d.1 a.1 in
    (
      (name, snapshot ts a.0.0) ∷ rest.0,
      ap (λ o. o >>= λ msgs. snapshots topics >>= λ q. some ((name, snapshot ts msgs) ∷ q))
            (serialize-IsTopic ts a.0.0 a.0.1.0)
          ∙ ap (λ o. o >>= λ q. some ((name, snapshot ts a.0.0) ∷ q)) rest.1,
      (
        rest.2.0,
        ap (λ o. o >>= λ t. recover_topics rest.0 (insert name t base)) r.1 ∙ rest.2.1,
        Reread-cons name ts topics base rest.2.0 r.0 a.0.0 d.0 a.0.1.0 r.2 rest.2.2,
      ),
    )
