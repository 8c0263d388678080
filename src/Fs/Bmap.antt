-- ===== src/Fs/Bmap.antt =====
-- `bmap` of kernel/fs.c: it finds or makes the block, and no byte of a file changes.
use intro2os_project.Prelude.{
  ℕ, ◌-◌, ◌≤◌, ◌<◌, ◌≡◌, ◌≢◌, inl, inr, refl, sym, ap, ◌∙◌, subst, true, false, some, ◌==◌, ltb,
  update, update_self, update_ne, arith, ℕ_discrete, dec_lt,
}
use intro2os_project.Fs.{Dinode}
use intro2os_project.Fs.Disk.{Super, Disk, ndirect, nindirect, maxfile, direct, indirect, bmap}
use intro2os_project.Fs.Bitmap.{used}
use intro2os_project.Fs.Balloc.{IsMap, taken, used-ne, balloc_allocates}
use intro2os_project.Fs.Blocks.{block_of, FileOn}
use intro2os_project.Fs.Extend.{
  IsExtended, IsExtended-refl, IsExtended-trans, data-IsExtended, table-IsExtended,
}
use intro2os_project.Fs.Index.{
  IsBlock, with_addr, with_word, direct_there, direct_full, direct_new, indirect_there,
  indirect_full, indirect_new, of_direct, of_none, of_indirect, of_same,
}

-- A direct block.
direct-IsBlock :
    (sb : Super) (bn : ℕ) (ip : Dinode) (d : Disk)
    → IsMap sb d
    → FileOn sb d ip
    → bn < ndirect
    → (a : ℕ) × (ip' : Dinode) × (d' : Disk) × (direct sb bn ip d ≡ (a, (ip', d')))
      × IsBlock sb bn d ip a d' ip'
direct-IsBlock sb bn ip d m f lt = elim (ℕ_discrete (ip.addrs bn) 0) [
  | no n ↦ (
    ip.addrs bn,
    ip,
    d,
    direct_there sb bn ip d n,
    record {
      ext = IsExtended-refl sb bn d ip m f;
      here = of_direct d ip bn lt;
      full = λ z. absurd (n z);
    },
  )
  | yes z ↦ elim (balloc_allocates sb d m).0 [
    | inl (e, all) ↦ (
      0,
      ip,
      d,
      direct_full sb bn ip d z e,
      record {
        ext = IsExtended-refl sb bn d ip m f;
        here = of_direct d ip bn lt ∙ z;
        full = λ q. all;
      },
    )
    | inr (a, pos, e, al) ↦
        let here = of_direct (taken sb a d) (with_addr ip bn a) bn lt ∙ update_self ip.addrs bn a in
        (
          a,
          with_addr ip bn a,
          taken sb a d,
          direct_new sb bn a ip d (taken sb a d) z e pos,
          record {
            ext =
                data-IsExtended sb d a m al pos (taken sb a d) ip (with_addr ip bn a) bn refl
                  al.inodes f (omega arith) (of_direct d ip bn lt ∙ z)
                  (update_ne ip.addrs bn a ndirect (λ q. omega arith)) refl here
                  (λ bm l n.
                    of_same d (taken sb a d) ip (with_addr ip bn a) bm
                      (λ q. update_ne ip.addrs bn a bm (λ r. n (sym r)))
                      (update_ne ip.addrs bn a ndirect (λ q. omega arith))
                      (λ q k.
                        ap (λ w. w (bm - ndirect))
                          (al.words (ip.addrs ndirect)
                            (used-ne sb d a (ip.addrs ndirect) al.free (f.table k).0))));
            here = here;
            full = λ q. absurd (omega arith);
          },
        )
  ]
]

-- The indirect block itself; no block of the file changes.
table-IsBlock :
    (sb : Super) (bn : ℕ) (ip : Dinode) (d : Disk)
    → IsMap sb d
    → FileOn sb d ip
    → ndirect ≤ bn
    → bn < maxfile
    → (a : ℕ) × (ip' : Dinode) × (d' : Disk) × (direct sb ndirect ip d ≡ (a, (ip', d')))
      × IsExtended sb bn d ip d' ip'
      × (block_of d' ip' bn ≡ block_of d ip bn)
      × (ip'.addrs ndirect ≡ a)
      × (a ≡ 0 → (b : ℕ) → b < sb.size → used sb d' b ≡ true)
table-IsBlock sb bn ip d m f ge lt = elim (ℕ_discrete (ip.addrs ndirect) 0) [
  | no n ↦ (
    ip.addrs ndirect,
    ip,
    d,
    direct_there sb ndirect ip d n,
    IsExtended-refl sb bn d ip m f,
    refl,
    refl,
    λ z. absurd (n z),
  )
  | yes z ↦ elim (balloc_allocates sb d m).0 [
    | inl (e, all) ↦ (
      0,
      ip,
      d,
      direct_full sb ndirect ip d z e,
      IsExtended-refl sb bn d ip m f,
      refl,
      z,
      λ q. all,
    )
    | inr (a, pos, e, al) ↦
        let ind = update_self ip.addrs ndirect a in
        let same : (bm : ℕ)
            → bm < maxfile
            → block_of (taken sb a d) (with_addr ip ndirect a) bm ≡ block_of d ip bm =
          λ bm l. elim (dec_lt bm ndirect) [
            | yes h ↦
                of_direct (taken sb a d) (with_addr ip ndirect a) bm h
                ∙ update_ne ip.addrs ndirect a bm (λ q. omega arith)
                ∙ sym (of_direct d ip bm h)
            | no h ↦
                of_indirect (taken sb a d) (with_addr ip ndirect a) bm (omega arith)
                  (λ q. omega (arith, ind))
                ∙ ap (λ y. (taken sb a d).word y (bm - ndirect)) ind
                ∙ al.zero_word (bm - ndirect)
                ∙ sym (of_none d ip bm (omega arith) z)
          ] in
        (
          a,
          with_addr ip ndirect a,
          taken sb a d,
          direct_new sb ndirect a ip d (taken sb a d) z e pos,
          table-IsExtended sb d a m al pos (taken sb a d) ip (with_addr ip ndirect a) bn refl
              al.inodes f lt z ind refl same,
          same bn lt,
          ind,
          λ q. absurd (omega arith),
        )
  ]
]

-- A block in the indirect block.
indirect-IsBlock :
    (sb : Super) (bn : ℕ) (ip : Dinode) (d : Disk)
    → IsMap sb d
    → FileOn sb d ip
    → ndirect ≤ bn
    → bn < maxfile
    → ip.addrs ndirect ≢ 0
    → (a : ℕ) × (d' : Disk) × (indirect sb (ip.addrs ndirect) (bn - ndirect) d ≡ (a, d'))
      × IsBlock sb bn d ip a d' ip
indirect-IsBlock sb bn ip d m f ge lt n0 =
    elim (ℕ_discrete (d.word (ip.addrs ndirect) (bn - ndirect)) 0) [
      | no n ↦ (
        d.word (ip.addrs ndirect) (bn - ndirect),
        d,
        indirect_there sb (ip.addrs ndirect) (bn - ndirect) d n,
        record {
          ext = IsExtended-refl sb bn d ip m f;
          here = of_indirect d ip bn ge n0;
          full = λ z. absurd (n z);
        },
      )
      | yes z ↦ elim (balloc_allocates sb d m).0 [
        | inl (e, all) ↦ (
          0,
          d,
          indirect_full sb (ip.addrs ndirect) (bn - ndirect) d z e,
          record {
            ext = IsExtended-refl sb bn d ip m f;
            here = of_indirect d ip bn ge n0 ∙ z;
            full = λ q. all;
          },
        )
        | inr (a, pos, e, al) ↦
            let a0 = ip.addrs ndirect in
            let d1 = taken sb a d in
            let d2 = with_word d1 a0 (bn - ndirect) a in
            let row = update_self d1.word a0 (update (d1.word a0) (bn - ndirect) a) in
            let old = al.words a0 (used-ne sb d a a0 al.free (f.table n0).0) in
            let here =
              of_indirect d2 ip bn ge n0
              ∙ ap (λ w. w (bn - ndirect)) row
              ∙ update_self (d1.word a0) (bn - ndirect) a in
            (
              a,
              d2,
              indirect_new sb a0 (bn - ndirect) a d d1 z e pos,
              record {
                ext =
                    data-IsExtended sb d a m al pos d2 ip ip bn refl al.inodes f lt
                      (of_indirect d ip bn ge n0 ∙ z) refl refl here
                      (λ bm l n.
                        of_same d d2 ip ip bm (λ q. refl) refl
                          (λ q k.
                            ap (λ w. w (bm - ndirect)) row
                            ∙ update_ne (d1.word a0) (bn - ndirect) a (bm - ndirect)
                                (λ r. n (omega arith))
                            ∙ ap (λ w. w (bm - ndirect)) old));
                here = here;
                full = λ q. absurd (omega arith);
              },
            )
      ]
    ]

bmap_low :
    (sb : Super) (bn : ℕ) (ip : Dinode) (d : Disk)
    → bn < ndirect
    → bmap sb bn ip d ≡ some (direct sb bn ip d)
unfolding bmap
bmap_low sb bn ip d lt = let t : ltb bn ndirect ≡ true = ground arith in rw t refl

bmap_stop :
    (sb : Super) (bn : ℕ) (ip ip' : Dinode) (d d' : Disk)
    → ndirect ≤ bn
    → bn < maxfile
    → direct sb ndirect ip d ≡ (0, (ip', d'))
    → bmap sb bn ip d ≡ some (0, (ip', d'))
unfolding bmap
bmap_stop sb bn ip ip' d d' ge lt e =
    let t : ltb bn ndirect ≡ false = ground arith in
    let q : ltb (bn - ndirect) nindirect ≡ true = ground arith in rw (t, q, e) refl

bmap_on :
    (sb : Super) (bn a0 a : ℕ) (ip ip' : Dinode) (d d' d2 : Disk)
    → ndirect ≤ bn
    → bn < maxfile
    → direct sb ndirect ip d ≡ (a0, (ip', d'))
    → a0 ≢ 0
    → indirect sb a0 (bn - ndirect) d' ≡ (a, d2)
    → bmap sb bn ip d ≡ some (a, (ip', d2))
unfolding bmap
bmap_on sb bn a0 a ip ip' d d' d2 ge lt e n e2 =
    let t : ltb bn ndirect ≡ false = ground arith in
    let q : ltb (bn - ndirect) nindirect ≡ true = ground arith in
    let z : (a0 == 0) ≡ false = ground arith in rw (t, q, e, z, e2) refl

-- The block, and what becomes of the file.
pub bmap_extends :
    (sb : Super) (bn : ℕ) (ip : Dinode) (d : Disk)
    → IsMap sb d
    → FileOn sb d ip
    → bn < maxfile
    → (a : ℕ) × (ip' : Dinode) × (d' : Disk) × (bmap sb bn ip d ≡ some (a, (ip', d')))
      × IsBlock sb bn d ip a d' ip'
bmap_extends sb bn ip d m f lt = elim (dec_lt bn ndirect) [
  | yes low ↦
      let (a, ip', d', e, r) = direct-IsBlock sb bn ip d m f low in
      (a, ip', d', bmap_low sb bn ip d low ∙ ap some e, r)
  | no high ↦
      let (a0, ip1, d1, e, ext, same, ind, full) = table-IsBlock sb bn ip d m f (omega arith) lt in
      elim (ℕ_discrete a0 0) [
        | yes z ↦ (
          0,
          ip1,
          d1,
          bmap_stop sb bn ip ip1 d d1 (omega arith) lt (e ∙ ap (λ y. (y, (ip1, d1))) z),
          record {
            ext = ext;
            here = of_none d1 ip1 bn (omega arith) (ind ∙ z);
            full = λ q. full z;
          },
        )
        | no n ↦
            let (a, d2, e2, r) =
              indirect-IsBlock sb bn ip1 d1 ext.map ext.file (omega arith) lt
                (λ z. n (sym ind ∙ z)) in
            (
              a,
              ip1,
              d2,
              bmap_on sb bn a0 a ip ip1 d d1 d2 (omega arith) lt e n
                  (subst (λ z. indirect sb z (bn - ndirect) d1 ≡ (a, d2)) ind e2),
              record {
                ext = IsExtended-trans sb bn d d1 d2 ip ip1 ip1 lt same ext r.ext;
                here = r.here;
                full = r.full;
              },
            )
      ]
]

-- A block that is there.
pub bmap_there :
    (sb : Super) (bn : ℕ) (ip : Dinode) (d : Disk)
    → bn < maxfile
    → block_of d ip bn ≢ 0
    → bmap sb bn ip d ≡ some (block_of d ip bn, (ip, d))
bmap_there sb bn ip d lt n = elim (dec_lt bn ndirect) [
  | yes low ↦
      let e = of_direct d ip bn low in
      bmap_low sb bn ip d low
      ∙ ap some (direct_there sb bn ip d (λ z. n (e ∙ z)))
      ∙ ap (λ z. some (z, (ip, d))) (sym e)
  | no high ↦ elim (ℕ_discrete (ip.addrs ndirect) 0) [
    | yes z ↦ absurd (n (of_none d ip bn (omega arith) z))
    | no k ↦
        let e = of_indirect d ip bn (omega arith) k in
        bmap_on sb bn (ip.addrs ndirect) (block_of d ip bn) ip ip d d d (omega arith) lt
          (direct_there sb ndirect ip d k) k
          (indirect_there sb (ip.addrs ndirect) (bn - ndirect) d (λ z. n (e ∙ z))
            ∙ ap (λ z. (z, d)) (sym e))
  ]
]
