-- ===== src/Fs/Moved.antt =====
-- What the loop of `writei` moves into a file, round by round.
use os_2_course_work.Prelude.{
  ℕ, ◌+◌, ◌-◌, ◌/◌, ◌%◌, ◌<◌, ◌≤◌, ◌≡◌, ◌≢◌, refl, sym, ap, ◌∙◌, Bool, true, false, true-false,
  Bool-cases, inl, inr, ltb→lt, ltb, arith,
}
use os_2_course_work.Str.{Bytes}
use os_2_course_work.Raid.{bsize}
use os_2_course_work.Fs.{Volume, put_block}
use os_2_course_work.Fs.Inode.{Inode}
use os_2_course_work.Fs.Content.{Transfer, whole, stopped, blit, part}
use os_2_course_work.Fs.Slots.{nslots, slot, Sound}
use os_2_course_work.Fs.Filled.{max_bytes, data_slot, byte_slot, byte, byte_slot_range, Extends}
use os_2_course_work.Fs.Direct.{Found}
use os_2_course_work.Fs.Store.{blit-blit, blit_at, changed-slot, changed-Sound, part-byte}

-- The two ways of a transfer are different.
abbrev is_whole : Transfer → Bool
is_whole whole = true
is_whole (stopped q) = false

whole-stopped : {q : ℕ} → whole ≢ stopped q
whole-stopped e = true-false (ap is_whole e)

-- The loop of `writei` has moved the bytes from `tot` to `end` of the source to the offset `off`, and those
-- up to `reach` in a transfer that failed.
pub record Moved (copies : ℕ → Transfer) (src : Bytes) (n tot off : ℕ) (ip : Inode) (disk : Volume)
    (end : ℕ) (ip' : Inode) (disk' : Volume) : Type 0 where
  pub reach : ℕ
  pub from : tot ≤ end
  pub to : end ≤ n
  pub reach_from : end ≤ reach
  pub reach_to : reach ≤ n
  pub near : reach ≤ end + bsize
  pub exact : ((t : ℕ) → copies t ≡ whole) → reach ≡ end
  pub sound : Sound ip' disk'
  pub bytes :
      (x : ℕ) → x < max_bytes → byte ip' disk' x ≡ blit (byte ip disk) off src tot (reach - tot) x
  pub present : (x : ℕ) → off ≤ x → x < off + (end - tot) → slot ip' disk' (byte_slot x) ≢ 0
  pub stays : (k : ℕ) → k < nslots → slot ip disk k ≢ 0 → slot ip' disk' k ≢ 0
  pub same_size : ip'.size ≡ ip.size

-- The loop ends here, after the last `bmap`.
pub Moved-none :
    (copies : ℕ → Transfer) (src : Bytes) (n tot off : ℕ) (ip : Inode) (disk : Volume) (ip' : Inode)
    (disk' : Volume)
    → tot ≤ n
    → Extends ip disk ip' disk'
    → Moved copies src n tot off ip disk tot ip' disk'
Moved-none copies src n tot off ip disk ip' disk' h e = record {
  reach = tot;
  from = omega arith;
  to = h;
  reach_from = omega arith;
  reach_to = h;
  near = omega arith;
  exact = λ all. refl;
  sound = e.sound;
  bytes = λ x hx. e.bytes x hx ∙ sym (blit_none x);
  present = λ x lo hi. absurd (omega arith);
  stays = λ k hk n z. n (sym (e.stays k hk n) ∙ z);
  same_size = e.same_size;
}
  where
    blit_none : (x : ℕ) → blit (byte ip disk) off src tot (tot - tot) x ≡ byte ip disk x
    blit_none x = ground arith

pub part_fits :
    (n tot off : ℕ)
    → tot < n
    → (1 ≤ part n tot off) × (part n tot off ≤ n - tot) × (part n tot off ≤ bsize - off % bsize)
part_fits n tot off more = ground arith

-- A round of the loop that moves `len` bytes.
module _ (copies : ℕ → Transfer) (src : Bytes) (n tot off len : ℕ) (ip : Inode) (disk : Volume)
    (addr : ℕ) (ip1 : Inode) (disk1 : Volume) (more : tot < n) (fits : off + (n - tot) ≤ max_bytes)
    (some_left : len ≤ n - tot) (in_block : len ≤ bsize - off % bsize)
    (m : Found ip disk (data_slot (off / bsize)) (addr, ip1, disk1)) (there : addr ≢ 0) where
  abbrev pub moved : Volume
  moved = put_block addr (blit (disk1.blocks addr) (off % bsize) src tot len) disk1

  slot_range : data_slot (off / bsize) < nslots
  slot_range = byte_slot_range off (omega arith)

  moved_slot : (l : ℕ) → slot ip1 moved l ≡ slot ip1 disk1 l
  moved_slot =
      changed-slot ip1 disk1 m.extends.sound (off / bsize) addr slot_range (m.at there) there
        (blit (disk1.blocks addr) (off % bsize) src tot len)

  pub moved-Sound : Sound ip1 moved
  moved-Sound =
      changed-Sound ip1 disk1 m.extends.sound (off / bsize) addr slot_range (m.at there) there
        (blit (disk1.blocks addr) (off % bsize) src tot len)

  moved-byte : (x : ℕ) → x < max_bytes → byte ip1 moved x ≡ blit (byte ip disk) off src tot len x
  moved-byte x h =
      part-byte ip1 disk1 m.extends.sound (off / bsize) addr slot_range (m.at there) there
        (blit (disk1.blocks addr) (off % bsize) src tot len) off tot len x src refl in_block refl h
      ∙ blit_at (byte ip1 disk1) (byte ip disk) src off tot len x (m.extends.bytes x h)

  -- The bytes of this round have their block.
  moved_present : (x : ℕ) → off ≤ x → x < off + len → slot ip1 moved (byte_slot x) ≢ 0
  moved_present x lo hi z =
      let same : x / bsize ≡ off / bsize = omega (arith, in_block) in
      there (
        sym (m.at there)
        ∙ sym (moved_slot (data_slot (off / bsize)))
        ∙ ap (λ b. slot ip1 moved (data_slot b)) (sym same)
        ∙ z)

  -- The loop ends with a round that fails after `len` bytes.
  pub Moved-part :
      (q : ℕ) → copies tot ≡ stopped q → Moved copies src n tot off ip disk tot ip1 moved
  Moved-part q fails =
      let len' : tot + len - tot ≡ len = omega arith in
      record {
        reach = tot + len;
        from = omega arith;
        to = omega arith;
        reach_from = omega arith;
        reach_to = omega arith;
        near = omega arith;
        exact = λ all. absurd (whole-stopped (sym (all tot) ∙ fails));
        sound = moved-Sound;
        bytes = λ x h. moved-byte x h ∙ ap (λ k. blit (byte ip disk) off src tot k x) (sym len');
        present = λ x lo hi. absurd (omega arith);
        stays = λ k h ne z. ne (sym (m.extends.stays k h ne) ∙ sym (moved_slot k) ∙ z);
        same_size = m.extends.same_size;
      }

  pub Moved-round :
      (end : ℕ) (ip2 : Inode) (disk2 : Volume)
      → Moved copies src n (tot + len) (off + len) ip1 moved end ip2 disk2
      → Moved copies src n tot off ip disk end ip2 disk2
  Moved-round end ip2 disk2 rest =
      let from = rest.from in
      let reach_from = rest.reach_from in
      let total : len + (rest.reach - (tot + len)) ≡ rest.reach - tot = omega arith in
      record {
        reach = rest.reach;
        from = omega arith;
        to = rest.to;
        reach_from = rest.reach_from;
        reach_to = rest.reach_to;
        near = rest.near;
        exact = rest.exact;
        sound = rest.sound;
        bytes = λ x h.
            rest.bytes x h
            ∙ blit_at (byte ip1 moved) (blit (byte ip disk) off src tot len) src (off + len)
                (tot + len) (rest.reach - (tot + len)) x (moved-byte x h)
            ∙ blit-blit (byte ip disk) src off tot len (rest.reach - (tot + len)) x
            ∙ ap (λ q. blit (byte ip disk) off src tot q x) total;
        present = λ x lo hi. elim (Bool-cases (ltb x (off + len))) [
          | inl now ↦
              rest.stays (byte_slot x) (byte_slot_range x (let t = rest.to in omega arith))
                (moved_present x lo (ltb→lt _ _ now))
          | inr later ↦ rest.present x (ground arith) (omega arith)
        ];
        stays = λ k h ne.
            rest.stays k h (λ z. ne (sym (m.extends.stays k h ne) ∙ sym (moved_slot k) ∙ z));
        same_size = rest.same_size ∙ m.extends.same_size;
      }
