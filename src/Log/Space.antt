-- ===== src/Log/Space.antt =====
-- The log's room: `begin_op` lets operations in so that no `log_write` ever finds the log full.
use os_2_course_work.Prelude.{
  ℕ, suc, ◌+◌, ◌≤◌, ◌<◌, ◌≡◌, inl, inr, refl, sym, ◌∙◌, ap, Bool, true, false, Bool-cases, some,
  List, [], ◌∷◌, Outcome, done, length, get_elem?, set, arith,
}
use os_2_course_work.Log.{
  Log, maxopblocks, logblocks, clear_log, begin_op, end_op, end_commit, log_write,
}
use os_2_course_work.Log.Shares.{
  sum, remove, AtMost, done_or, sum_le, AtMost-set, AtMost-remove, sum_get, log_write-Noted,
  end_op-Ended, Begun, begin_op-Begun,
}

-- What the log and its users do: `ops` has for each operation in progress the number of calls of
-- `log_write` that it may still make, 10 at its start. A commit runs to its end before others go on.
pub data Step : Log → List ℕ → Log → List ℕ → Type 0 where
  begins :
      {log log' : Log} {ops : List ℕ}
      → begin_op log ≡ some log'
      → Step log ops log' (maxopblocks ∷ ops)
  writes :
      {log log' : Log} {ops : List ℕ} (i left b : ℕ)
      → get_elem? ops i ≡ some (suc left)
      → log_write b log ≡ done log'
      → Step log ops log' (set ops i left)
  ends :
      {log log' : Log} {ops : List ℕ} (i left : ℕ) (do_commit : Bool)
      → get_elem? ops i ≡ some left
      → end_op log ≡ done (log', do_commit)
      → Step log ops log' (remove ops i)
  commits :
      {log : Log} {ops : List ℕ}
      → log.committing ≡ true
      → Step log ops (end_commit (clear_log log)) ops

-- The states that runs from an empty log reach.
pub data Reaches (start : Log) : Log → List ℕ → Type 0 where
  starts :
      start.lh.n ≡ 0 → start.outstanding ≡ 0 → start.committing ≡ false → Reaches start start []
  steps :
      {log log' : Log} {ops ops' : List ℕ}
      → Reaches start log ops
      → Step log ops log' ops'
      → Reaches start log' ops'

-- Every operation's share is set aside, and none is in progress during a commit.
record IsRoomy (log : Log) (ops : List ℕ) : Type 0 where
  room : log.lh.n + sum ops ≤ logblocks
  counted : log.outstanding ≡ length ops
  few : length ops ≤ 3
  each : AtMost ops
  alone : log.committing ≡ true → length ops ≡ 0

begins-IsRoomy :
    (log log' : Log) (ops : List ℕ)
    → Begun log log'
    → IsRoomy log ops
    → IsRoomy log' (maxopblocks ∷ ops)
begins-IsRoomy log log' ops b v = record {
  room = omega (arith, b.same_n, b.room, v.counted, sum_le ops v.each);
  counted = omega (arith, b.one_more, v.counted);
  few = omega (arith, b.room, v.counted);
  each = (omega arith, v.each);
  alone = λ h. let idle = b.idle in cc;
}

writes-IsRoomy :
    (log log' : Log) (ops : List ℕ) (i left b : ℕ)
    → get_elem? ops i ≡ some (suc left)
    → log_write b log ≡ done log'
    → IsRoomy log ops
    → IsRoomy log' (set ops i left)
writes-IsRoomy log log' ops i left b e w v =
    let g = sum_get ops i (suc left) e in
    let r = AtMost-set ops i left e v.each in
    let a =
      log_write-Noted b log (omega (arith, v.room, g.0)) (omega (arith, v.counted, g.1))
        (omega (arith, v.counted, v.few)) in
    let same : log' ≡ a.after = ap (done_or log) (sym w ∙ a.returns) in
    rw same (record {
      room = omega (arith, a.grown, v.room, r.1);
      counted = a.outstanding ∙ v.counted ∙ sym r.2;
      few = omega (arith, v.few, r.2);
      each = r.0;
      alone = λ h. r.2 ∙ v.alone (sym a.committing ∙ h);
    })

idle-IsRoomy :
    (log : Log) (ops : List ℕ) → IsRoomy log ops → 0 < length ops → log.committing ≡ false
idle-IsRoomy log ops v h = elim (Bool-cases log.committing) [
  | inl c ↦ absurd (omega (arith, v.alone c))
  | inr c ↦ c
]

ends-IsRoomy :
    (log log' : Log) (ops : List ℕ) (i left : ℕ) (flag : Bool)
    → get_elem? ops i ≡ some left
    → end_op log ≡ done (log', flag)
    → IsRoomy log ops
    → IsRoomy log' (remove ops i)
ends-IsRoomy log log' ops i left flag e w v =
    let g = sum_get ops i left e in
    let r = AtMost-remove ops i left e v.each in
    let a =
      end_op-Ended log (idle-IsRoomy log ops v g.1) (omega (arith, v.counted, g.1))
        (omega (arith, v.counted, v.few)) in
    let same : log' ≡ a.after =
      ap (λ (o : Outcome (Log × Bool)). (done_or (log, flag) o).0) (sym w ∙ a.returns) in
    rw same (record {
      room = omega (arith, a.same_n, v.room, r.1);
      counted = omega (arith, a.one_less, v.counted, r.2);
      few = omega (arith, v.few, r.2);
      each = r.0;
      alone = λ h. omega (arith, a.last h, a.one_less, v.counted, r.2);
    })

commits-IsRoomy :
    (log : Log) (ops : List ℕ) → IsRoomy log ops → IsRoomy (end_commit (clear_log log)) ops
unfolding end_commit
commits-IsRoomy log ops v = record {
  room = omega (arith, v.room);
  counted = v.counted;
  few = v.few;
  each = v.each;
  alone = λ h. cc;
}

Step-IsRoomy :
    (log log' : Log) (ops ops' : List ℕ)
    → Step log ops log' ops'
    → IsRoomy log ops
    → IsRoomy log' ops'
Step-IsRoomy log log' ops ops' (begins e) v =
    begins-IsRoomy log log' ops
      (begin_op-Begun log log' (omega (arith, v.room)) (omega (arith, v.counted, v.few)) e) v
Step-IsRoomy log log' ops ops' (writes i left b e w) v = writes-IsRoomy log log' ops i left b e w v
Step-IsRoomy log log' ops ops' (ends i left flag e w) v =
    ends-IsRoomy log log' ops i left flag e w v
Step-IsRoomy log log' ops ops' (commits c) v = commits-IsRoomy log ops v

Reaches-IsRoomy : (start log : Log) (ops : List ℕ) → Reaches start log ops → IsRoomy log ops
Reaches-IsRoomy start log ops (starts n o c) = record {
  room = omega (arith, n);
  counted = o;
  few = omega arith;
  each = tt;
  alone = λ h. refl;
}
Reaches-IsRoomy start log ops (steps {log = l} {ops = os} r s) =
    Step-IsRoomy l log os ops s (Reaches-IsRoomy start l os r)

-- In every run from an empty log in which each operation calls `log_write` ten times at most, the log
-- has 30 entries at most, an operation's `log_write` returns and does not panic, and so does its
-- `end_op`.
pub Reaches-fits :
    (start log : Log) (ops : List ℕ)
    → Reaches start log ops
    → (log.lh.n ≤ logblocks)
      × ((i left b : ℕ)
          → get_elem? ops i ≡ some (suc left)
          → (l : Log) × (log_write b log ≡ done l))
      × ((i left : ℕ) → get_elem? ops i ≡ some left → (r : Log × Bool) × (end_op log ≡ done r))
Reaches-fits start log ops reached =
    let v = Reaches-IsRoomy start log ops reached in
    (
      omega (arith, v.room),
      λ i left b e.
          let g = sum_get ops i (suc left) e in
          let a =
            log_write-Noted b log (omega (arith, v.room, g.0)) (omega (arith, v.counted, g.1))
              (omega (arith, v.counted, v.few)) in
          (a.after, a.returns),
      λ i left e.
          let g = sum_get ops i left e in
          let a =
            end_op-Ended log (idle-IsRoomy log ops v g.1) (omega (arith, v.counted, g.1))
              (omega (arith, v.counted, v.few)) in
          ((a.after, a.flag), a.returns),
    )
