-- ===== src/Fs/Extend.antt =====
-- A file of kernel/fs.c gets a block, and its content stays.
use intro2os_project.Prelude.{
  ℕ, ◌%◌, ◌<◌, ◌≡◌, ◌≢◌, refl, sym, ap, ◌∙◌, subst, false, ◌==◌, arith, ℕ_discrete,
}
use intro2os_project.Fs.{Dinode}
use intro2os_project.Fs.Disk.{Super, Disk, bblock, bit, bpb, ndirect, maxfile}
use intro2os_project.Fs.Bitmap.{used}
use intro2os_project.Fs.Balloc.{IsMap, IsAllocated, taken, used-ne}
use intro2os_project.Fs.Blocks.{
  block_of, block_byte, IsData, IsFile, FileOn, StaysUsed, data-IsFile, table-IsFile,
}

-- The file of `ip'` on `d'` is that of `ip` on `d`, but for a new block `bn` perhaps.
pub record IsExtended (sb : Super) (bn : ℕ) (d : Disk) (ip : Dinode) (d' : Disk) (ip' : Dinode)
    : Type 0 where
  pub map : IsMap sb d'
  pub file : FileOn sb d' ip'
  pub others : (bm : ℕ) → bm < maxfile → bm ≢ bn → block_of d' ip' bm ≡ block_of d ip bm
  pub kept : block_of d ip bn ≢ 0 → block_of d' ip' bn ≡ block_of d ip bn
  pub bytes : (bm i : ℕ) → bm < maxfile → block_byte d' ip' bm i ≡ block_byte d ip bm i
  pub frame : (b : ℕ) → IsData sb (used sb d) b → IsData sb (used sb d') b × (d'.byte b ≡ d.byte b)
  pub size : ip'.size ≡ ip.size
  pub inodes : d'.inode ≡ d.inode

-- No block is lost.
pub extended_stays :
    (sb : Super) (bn bm : ℕ) (d d' : Disk) (ip ip' : Dinode)
    → IsExtended sb bn d ip d' ip'
    → bm < maxfile
    → block_of d ip bm ≢ 0
    → block_of d' ip' bm ≢ 0
extended_stays sb bn bm d d' ip ip' r lt n z = elim (ℕ_discrete bm bn) [
  | no ne ↦ n (sym (r.others bm lt ne) ∙ z)
  | yes e ↦
      let was : block_of d ip bn ≢ 0 = λ q. n (ap (block_of d ip) e ∙ q) in
      was (sym (r.kept was) ∙ sym (ap (block_of d' ip') e) ∙ z)
]

pub IsExtended-refl :
    (sb : Super) (bn : ℕ) (d : Disk) (ip : Dinode)
    → IsMap sb d
    → FileOn sb d ip
    → IsExtended sb bn d ip d ip
IsExtended-refl sb bn d ip m f = record {
  map = m;
  file = f;
  others = λ bm lt n. refl;
  kept = λ n. refl;
  bytes = λ bm i lt. refl;
  frame = λ b h. (h, refl);
  size = refl;
  inodes = refl;
}

-- A step that changes no block, and then one that gives `bn`.
pub IsExtended-trans :
    (sb : Super) (bn : ℕ) (d d1 d2 : Disk) (ip ip1 ip2 : Dinode)
    → bn < maxfile
    → block_of d1 ip1 bn ≡ block_of d ip bn
    → IsExtended sb bn d ip d1 ip1
    → IsExtended sb bn d1 ip1 d2 ip2
    → IsExtended sb bn d ip d2 ip2
IsExtended-trans sb bn d d1 d2 ip ip1 ip2 lt same f g = record {
  map = g.map;
  file = g.file;
  others = λ bm l n. g.others bm l n ∙ f.others bm l n;
  kept = λ n. g.kept (λ z. n (sym same ∙ z)) ∙ same;
  bytes = λ bm i l. g.bytes bm i l ∙ f.bytes bm i l;
  frame = λ b h. let (h1, e1) = f.frame b h in let (h2, e2) = g.frame b h1 in (h2, e2 ∙ e1);
  size = g.size ∙ f.size;
  inodes = g.inodes ∙ f.inodes;
}

-- The disk `d'` has the bytes of `d` after block `a` was taken.
module _ (sb : Super) (d : Disk) (a : ℕ) (m : IsMap sb d) (al : IsAllocated sb d a (taken sb a d))
    (pos : 0 < a) where
  stays : (d' : Disk) → d'.byte ≡ (taken sb a d).byte → StaysUsed sb (used sb d) (used sb d')
  stays d' e b lt y =
      ap (λ z. bit (z (bblock sb b)) (b % bpb)) e ∙ al.rest b lt (used-ne sb d a b al.free y) ∙ y

  fresh_data : (d' : Disk) → d'.byte ≡ (taken sb a d).byte → IsData sb (used sb d') a
  fresh_data d' e = (
    ap (λ z. bit (z (bblock sb a)) (a % bpb)) e ∙ al.now,
    al.low,
    λ c lt. used-ne sb d a (bblock sb c) al.free (m.map c lt),
  )

  still-IsMap : (d' : Disk) → d'.byte ≡ (taken sb a d).byte → IsMap sb d'
  still-IsMap d' e =
      let low = al.low in
      record {
        boot = stays d' e 0 (omega arith) m.boot;
        map = λ b lt. stays d' e (bblock sb b) (m.map_low b lt) (m.map b lt);
        map_low = m.map_low;
      }

  still_bytes :
      (d' : Disk)
      → d'.byte ≡ (taken sb a d).byte
      → (b : ℕ) → IsData sb (used sb d) b
      → IsData sb (used sb d') b × (d'.byte b ≡ d.byte b)
  still_bytes d' e b (y, lt, apart) = (
    (stays d' e b lt y, lt, apart),
    ap (λ z. z b) e ∙ al.bytes b (used-ne sb d a b al.free y) apart,
  )

  -- A block of the file that was there keeps its bytes.
  old_byte :
      (d' : Disk) (ip ip' : Dinode) (bm i : ℕ)
      → d'.byte ≡ (taken sb a d).byte
      → FileOn sb d ip
      → bm < maxfile
      → block_of d' ip' bm ≡ block_of d ip bm
      → block_byte d' ip' bm i ≡ block_byte d ip bm i
  old_byte d' ip ip' bm i e f lt same = elim (ℕ_discrete (block_of d ip bm) 0) [
    | yes z ↦ rw (same, z) refl
    | no n ↦
        let there : (block_of d ip bm == 0) ≡ false = ground arith in
        rw (same, there) (ap (λ g. g i) (still_bytes d' e (block_of d ip bm) (f.content bm lt n)).1)
  ]

  pub data-IsExtended :
      (d' : Disk) (ip ip' : Dinode) (bn : ℕ)
      → d'.byte ≡ (taken sb a d).byte
      → d'.inode ≡ d.inode
      → FileOn sb d ip
      → bn < maxfile
      → block_of d ip bn ≡ 0
      → ip'.addrs ndirect ≡ ip.addrs ndirect
      → ip'.size ≡ ip.size
      → block_of d' ip' bn ≡ a
      → ((bm : ℕ) → bm < maxfile → bm ≢ bn → block_of d' ip' bm ≡ block_of d ip bm)
      → IsExtended sb bn d ip d' ip'
  data-IsExtended d' ip ip' bn e ei f lt hole ind sz here others = record {
    map = still-IsMap d' e;
    file = subst (IsFile sb (used sb d') (block_of d' ip')) (sym ind) (
        data-IsFile sb (used sb d) (used sb d') (block_of d ip) (block_of d' ip') (ip.addrs ndirect)
          bn a f (stays d' e) al.free (fresh_data d' e) pos here others);
    others = others;
    kept = λ n. absurd (n hole);
    bytes = λ bm i l. elim (ℕ_discrete bm bn) [
      | no n ↦ old_byte d' ip ip' bm i e f l (others bm l n)
      | yes q ↦ new_byte bm i q
    ];
    frame = still_bytes d' e;
    size = sz;
    inodes = ei;
  }
    where
      new_byte : (bm i : ℕ) → bm ≡ bn → block_byte d' ip' bm i ≡ block_byte d ip bm i
      new_byte bm i q =
          let there : (a == 0) ≡ false = ground arith in
          rw (q, hole, here, there) (ap (λ z. z a i) e ∙ al.zero_byte i)

  pub table-IsExtended :
      (d' : Disk) (ip ip' : Dinode) (bn : ℕ)
      → d'.byte ≡ (taken sb a d).byte
      → d'.inode ≡ d.inode
      → FileOn sb d ip
      → bn < maxfile
      → ip.addrs ndirect ≡ 0
      → ip'.addrs ndirect ≡ a
      → ip'.size ≡ ip.size
      → ((bm : ℕ) → bm < maxfile → block_of d' ip' bm ≡ block_of d ip bm)
      → IsExtended sb bn d ip d' ip'
  table-IsExtended d' ip ip' bn e ei f lt none' ind sz same = record {
    map = still-IsMap d' e;
    file = subst (IsFile sb (used sb d') (block_of d' ip')) (sym ind) (
        table-IsFile sb (used sb d) (used sb d') (block_of d ip) (block_of d' ip') a
          (subst (IsFile sb (used sb d) (block_of d ip)) none' f) (stays d' e) al.free
          (fresh_data d' e) same);
    others = λ bm l n. same bm l;
    kept = λ n. same bn lt;
    bytes = λ bm i l. old_byte d' ip ip' bm i e f l (same bm l);
    frame = still_bytes d' e;
    size = sz;
    inodes = ei;
  }
