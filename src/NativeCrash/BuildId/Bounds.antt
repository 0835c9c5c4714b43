-- ===== src/NativeCrash/BuildId/Bounds.antt =====
-- The reads of `read_build_id` in src/native_crash.cpp stay in the segment.
use tombstack_native.Prelude.{
  ℕ, zero, suc, ◌+◌, ◌-◌, ◌^◌, ◌≤◌, ◌<◌, min, ◌≡◌, sym, subst, inl, inr, true, ◌&&◌, arith, ltb,
  leb, ◌==◌, if◌then◌else◌, leb→le, ltb_refuted, leb_refuted, Bool-cases, &&-eq-true, length, take,
  drop, length-take, Bytes, codes, str_eq, if-holds, if-cases,
}
use native.Mathlib.Nat.{mod-eq_of_lt}
use tombstack_native.NativeCrash.BuildId.{
  max_build_id_bytes, align4, little, Segment, plus, end_of, slice, Outcome, keeps, found, Round,
  finished, continues, read_or_fault, take_desc, advance, read_note, round, walk, IsSafe,
}

-- Two sizes of 32 bits behind the end of the segment are still addresses.
abbrev pub HasRoom : Segment → Type 0
HasRoom s = s.start + length s.bytes + 2 ^ 33 ≤ 2 ^ s.width

plus-near :
    (s : Segment) (at size : ℕ)
    → HasRoom s
    → at + size < s.start + length s.bytes + 2 ^ 33
    → plus s at size ≡ at + size
plus-near s at size room h = mod-eq_of_lt (omega (arith, room, h))

end_of-HasRoom : (s : Segment) → HasRoom s → end_of s ≡ s.start + length s.bytes
end_of-HasRoom s room = plus-near s s.start (length s.bytes) room (omega arith)

-- Where the next note may be: behind this one, and not far behind the end.
abbrev RoundIsSafe : Segment → ℕ → Round → Type 0
RoundIsSafe s note (finished outcome) = IsSafe outcome
RoundIsSafe s note (continues next) =
    ((note < next) × (note < s.start + length s.bytes)) × (next ≤ s.start + length s.bytes + 2 ^ 32)

advance-IsSafe :
    (s : Segment) (note next : ℕ)
    → note < s.start + length s.bytes
    → next ≤ s.start + length s.bytes + 2 ^ 32
    → RoundIsSafe s note (advance note next)
unfolding advance
advance-IsSafe s note next h k = elim (Bool-cases (leb next note)) [
  | inl e ↦ rw e tt
  | inr e ↦ rw e ((leb_refuted next note e, h), k)
]

slice-IsSafe :
    (s : Segment) (at size note : ℕ) (f : Bytes → Round)
    → s.start ≤ at
    → at + size ≤ s.start + length s.bytes
    → ((bytes : Bytes) → length bytes ≤ size → RoundIsSafe s note (f bytes))
    → RoundIsSafe s note (read_or_fault (slice s at size) f)
slice-IsSafe s at size note f l h k =
    let e : leb s.start at ≡ true = ground (arith, l) in
    let e' : leb (at + size) (s.start + length s.bytes) ≡ true = ground (arith, h) in
    rw (e, e')
      (k (take size (drop (at - s.start) s.bytes))
        (omega (arith, length-take size (drop (at - s.start) s.bytes))))

take_desc-IsSafe :
    (s : Segment) (note desc size : ℕ)
    → HasRoom s
    → s.start ≤ desc
    → desc ≤ s.start + length s.bytes
    → RoundIsSafe s note (take_desc s desc size)
unfolding take_desc
take_desc-IsSafe s note desc size room l h =
    let len = min size max_build_id_bytes in
    let short : len ≤ 20 = omega arith in
    let near = plus-near s desc len room (omega (arith, h, short)) in
    if-cases (RoundIsSafe s note) (leb (plus s desc len) (end_of s))
      (read_or_fault (slice s desc len) (λ id. finished (found id))) (finished keeps)
      (λ e.
        slice-IsSafe s desc len note (λ id. finished (found id)) l
          (leb→le (desc + len) (s.start + length s.bytes) (rw (near, end_of-HasRoom s room) at e))
          (λ bytes m. omega (arith, m, short)))
      (λ e. tt)

-- the note that is the build id, where its name fits
named-IsSafe :
    (s : Segment) (note name desc descsz : ℕ) (onward : Round)
    → HasRoom s
    → s.start ≤ name
    → name + 4 ≤ s.start + length s.bytes
    → s.start ≤ desc
    → desc ≤ s.start + length s.bytes
    → RoundIsSafe s note onward
    → RoundIsSafe s note (
        read_or_fault
          (slice s name 3)
          (λ gnu. if str_eq gnu (codes "GNU") then take_desc s desc descsz else onward))
named-IsSafe s note name desc descsz onward room l h dl dh k =
    slice-IsSafe s name 3 note _ l (omega (arith, h)) (λ gnu m.
      if-holds (RoundIsSafe s note) (str_eq gnu (codes "GNU")) {y = onward}
        (take_desc-IsSafe s note desc descsz room dl dh) k)

align4-below : (size : ℕ) → align4 size < 2 ^ 32
align4-below size = omega arith

read_note-IsSafe :
    (s : Segment) (note namesz descsz type : ℕ)
    → HasRoom s
    → s.start ≤ note
    → note + 12 ≤ s.start + length s.bytes
    → RoundIsSafe s note (read_note s note namesz descsz type)
unfolding read_note
read_note-IsSafe s note namesz descsz type room l inside =
    let name = note + 12 in
    let desc = name + align4 namesz in
    let is_name : plus s note 12 ≡ name = plus-near s note 12 room (omega (arith, inside)) in
    let is_desc : plus s name (align4 namesz) ≡ desc =
      plus-near s name (align4 namesz) room (omega (arith, inside, align4-below namesz)) in
    rw (is_name, is_desc, end_of-HasRoom s room)
      (if-cases (RoundIsSafe s note) (ltb (s.start + length s.bytes) desc) (finished keeps) _
        (λ e. tt) (λ e. rest (ltb_refuted (s.start + length s.bytes) desc e)))
  where
    fits :
        note + 12 + 4 ≡ plus s (note + 12) 4
        → (type == 3 && (namesz == 4 && leb (plus s (note + 12) 4) (s.start + length s.bytes)))
          ≡ true
        → note + 12 + 4 ≤ s.start + length s.bytes
    fits e k =
        subst (λ at. at ≤ s.start + length s.bytes) (sym e)
          (leb→le (plus s (note + 12) 4) (s.start + length s.bytes)
            (&&-eq-true (namesz == 4) _ (&&-eq-true (type == 3) _ k).1).1)

    rest :
        note + 12 + align4 namesz ≤ s.start + length s.bytes
        → RoundIsSafe s note (
            if type == 3 && (namesz == 4 && leb (plus s (note + 12) 4) (s.start + length s.bytes))
            then read_or_fault (slice s (note + 12) 3) (λ gnu.
              if str_eq gnu (codes "GNU")
              then take_desc s (note + 12 + align4 namesz) descsz
              else advance note (plus s (note + 12 + align4 namesz) (align4 descsz)))
            else advance note (plus s (note + 12 + align4 namesz) (align4 descsz)))
    rest d =
        let desc = note + 12 + align4 namesz in
        let near = plus-near s desc (align4 descsz) room (omega (arith, d, align4-below descsz)) in
        let near_name = plus-near s (note + 12) 4 room (omega (arith, d)) in
        let goes : RoundIsSafe s note (advance note (plus s desc (align4 descsz))) =
          advance-IsSafe s note (plus s desc (align4 descsz)) (omega (arith, inside))
            (omega (arith, d, near, align4-below descsz)) in
        if-cases (RoundIsSafe s note) _ _ _
          (λ k.
            named-IsSafe s note (note + 12) desc descsz _ room (omega (arith, l))
              (fits (sym near_name) k) (omega (arith, l)) d goes)
          (λ k. goes)

round-IsSafe :
    (s : Segment) (note : ℕ)
    → HasRoom s
    → s.start ≤ note
    → note ≤ s.start + length s.bytes + 2 ^ 32
    → RoundIsSafe s note (round s note)
unfolding round
round-IsSafe s note room l h =
    let words_note = λ (words : Bytes).
      read_note s note (little (take 4 words)) (little (take 4 (drop 4 words)))
        (little (drop 8 words)) in
    let near = plus-near s note 12 room (omega (arith, h)) in
    if-cases (RoundIsSafe s note) (leb (plus s note 12) (end_of s))
      (read_or_fault (slice s note 12) words_note) (finished keeps)
      (λ e.
        let inside =
          leb→le (note + 12) (s.start + length s.bytes) (rw (near, end_of-HasRoom s room) at e) in
        slice-IsSafe s note 12 note words_note l inside
          (λ words m. read_note-IsSafe s note _ _ _ room l inside))
      (λ e. tt)

go-IsSafe :
    (s : Segment) (note : ℕ) (onward : ℕ → Outcome) (r : Round)
    → RoundIsSafe s note r
    → ((next : ℕ)
        → ((note < next) × (note < s.start + length s.bytes))
          × (next ≤ s.start + length s.bytes + 2 ^ 32)
        → IsSafe (onward next))
    → IsSafe (elim r [ finished outcome ↦ outcome | continues next ↦ onward next ])
go-IsSafe s note onward (finished outcome) k l = k
go-IsSafe s note onward (continues next) k l = l next k

-- The walk from any note, with fuel for what lies behind it.
walk-IsSafe :
    (fuel : ℕ) (s : Segment) (note : ℕ)
    → HasRoom s
    → s.start ≤ note
    → note ≤ s.start + length s.bytes + 2 ^ 32
    → s.start + length s.bytes - note < fuel
    → IsSafe (walk fuel s note)
unfolding walk
walk-IsSafe zero s note room l h f = absurd (omega arith)
walk-IsSafe (suc fuel) s note room l h f =
    go-IsSafe s note (walk fuel s) (round s note) (round-IsSafe s note room l h) (λ next k.
      walk-IsSafe fuel s next room (omega (arith, l, k.0.0)) k.1 (omega (arith, f, k.0.0, k.0.1)))

-- Where two sizes of 32 bits behind the end of a note segment are still addresses, as on 64 bits,
-- `read_build_id` ends, reads nothing outside the segment, and takes at most the 20 bytes that its
-- array holds, whatever the bytes of the segment are.
pub read_build_id-IsSafe : (s : Segment) → HasRoom s → IsSafe (walk (length s.bytes + 1) s s.start)
read_build_id-IsSafe s room =
    walk-IsSafe (length s.bytes + 1) s s.start room (omega arith) (omega arith) (omega arith)
