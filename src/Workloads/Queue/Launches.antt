-- ===== src/Workloads/Queue/Launches.antt =====
-- The launch commands of a round of promotions (gpu-platform/internal/workloads/queue.go).
use node_hive_b2b.Prelude.{
  ℕ, suc, ◌+◌, ◌*◌, ◌≤◌, ◌≡◌, subst, Bool, true, false, List, [], ◌∷◌, ◌++◌, some, arith, ◌==◌,
  append-nil, append_assoc, Bool-cases, inl, inr,
}
use node_hive_b2b.Sql.{count}
use node_hive_b2b.Sql.Counts.{count-append}
use node_hive_b2b.Store.{Command, CommandStatus, Kind, Message, WorkloadSpec, minute}
use node_hive_b2b.Workloads.Queue.{Attempt}

-- A launch of its workload, not sent yet, to be delivered within ten minutes.
pub record IsLaunch (c : Command) : Type 0 where
  pub kind : c.kind ≡ Kind.launch
  pub spec : WorkloadSpec
  pub payload : c.payload ≡ Message.launch spec
  pub of_workload : c.workload_id ≡ some spec.workload_id
  pub status : c.status ≡ CommandStatus.pending
  pub attempts : c.attempts ≡ 0
  pub due : c.next_attempt_at ≡ c.created_at
  pub deadline : c.deliver_by ≡ some (c.created_at + 10 * minute)

-- What an attempt at a workload stores: one launch command for it, or none.
abbrev pub Sends : Attempt → ℕ → Bool → List Command → Type 0
Sends t id false cs = cs ≡ []
Sends t id true cs =
    (c : Command) × (cs ≡ c ∷ []) × (c.id ≡ t.command_id) × (c.workload_id ≡ some id) × IsLaunch c

-- Each command has the id that an attempt has drawn, and a later command one of a later attempt.
abbrev pub AreDrawn : (ℕ → Attempt) → ℕ → List Command → Type 0
AreDrawn attempts i [] = Unit
AreDrawn attempts i (c ∷ cs) =
    (j : ℕ) × (i ≤ j) × (c.id ≡ (attempts j).command_id) × AreDrawn attempts (suc j) cs

AreDrawn-later :
    (attempts : ℕ → Attempt) (i j : ℕ) (cs : List Command)
    → i ≤ j
    → AreDrawn attempts j cs
    → AreDrawn attempts i cs
AreDrawn-later attempts i j [] h d = tt
AreDrawn-later attempts i j (c ∷ cs) h (k, le, e, rest) = (k, omega (arith, h, le), e, rest)

pub AreDrawn-next :
    (attempts : ℕ → Attempt) (i : ℕ) (id : ℕ) (b : Bool) (cs ds : List Command)
    → Sends (attempts i) id b cs
    → AreDrawn attempts (suc i) ds
    → AreDrawn attempts i (cs ++ ds)
AreDrawn-next attempts i id false cs ds s d =
    rw s (AreDrawn-later attempts i (suc i) ds (omega arith) d)
AreDrawn-next attempts i id true cs ds (c, e, drawn, _, _) d = rw e (i, omega arith, drawn, d)

abbrev pub has_id : ℕ → Command → Bool
has_id id c = c.id == id

-- The primary key of agent_commands.
abbrev pub AreKeyed : List Command → Type 0
AreKeyed cs = (id : ℕ) → count (has_id id) cs ≤ 1

-- The ids that the attempts draw are new, and different from each other.
pub record AreNew (attempts : ℕ → Attempt) (i : ℕ) (cs : List Command) : Type 0 where
  pub unused : (j : ℕ) → i ≤ j → count (has_id (attempts j).command_id) cs ≡ 0
  pub distinct : (j k : ℕ) → (attempts j).command_id ≡ (attempts k).command_id → j ≡ k

stored-AreNew :
    (attempts : ℕ → Attempt) (i j : ℕ) (c : Command) (xs : List Command)
    → i ≤ j
    → c.id ≡ (attempts j).command_id
    → AreNew attempts i xs
    → AreNew attempts (suc j) (xs ++ c ∷ [])
unfolding count
stored-AreNew attempts i j c xs le e n = record {
  unused = λ k h. elim (Bool-cases (c.id == (attempts k).command_id)) [
    | inl same ↦
        let later : j ≡ k = n.distinct j k (ground (arith, e, same)) in
        absurd (omega (arith, later, h))
    | inr other ↦ ground (
      arith,
      other,
      n.unused k (omega (arith, le, h)),
      count-append (has_id (attempts k).command_id) xs (c ∷ []),
    )
  ];
  distinct = n.distinct;
}

stored-AreKeyed :
    (c : Command) (xs : List Command)
    → count (has_id c.id) xs ≡ 0
    → AreKeyed xs
    → AreKeyed (xs ++ c ∷ [])
unfolding count
stored-AreKeyed c xs z k id = elim (Bool-cases (c.id == id)) [
  | inl e ↦
      let same : id ≡ c.id = ground (arith, e) in
      let unused : count (has_id id) xs ≡ 0 = rw same z in
      ground (arith, e, unused, count-append (has_id id) xs (c ∷ []))
  | inr e ↦ ground (arith, e, k id, count-append (has_id id) xs (c ∷ []))
]

-- The key is kept by what the attempts store.
pub AreDrawn-AreKeyed :
    (attempts : ℕ → Attempt) (i : ℕ) (cs xs : List Command)
    → AreDrawn attempts i cs
    → AreNew attempts i xs
    → AreKeyed xs
    → AreKeyed (xs ++ cs)
AreDrawn-AreKeyed attempts i [] xs d n k = rw (append-nil xs) k
AreDrawn-AreKeyed attempts i (c ∷ cs) xs (j, le, e, rest) n k =
    subst AreKeyed (append_assoc xs (c ∷ []) cs) (
      AreDrawn-AreKeyed attempts (suc j) cs (xs ++ c ∷ []) rest
        (stored-AreNew attempts i j c xs le e n) (stored-AreKeyed c xs (rw e (n.unused j le)) k))
