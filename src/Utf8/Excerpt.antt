-- ===== src/Utf8/Excerpt.antt =====
-- What `utf8_excerpt` returns on any bytes: well-formed text within the budget.
use mathlib.Core.Path.{subst}
use qbrain.Prelude.{
  ℕ, zero, suc, ◌-◌, ◌≤◌, ◌<◌, ◌≡◌, refl, Bytes, Bool, true, false, List, [], ◌∷◌, ◌++◌,
  append_assoc, append-nil, length, take, drop, All, arith, length-append, length-take, is_empty,
  if◌then◌else◌, ltb,
}
use qbrain.Utf8.{
  utf8_scalar_size, valid_utf8, utf8_excerpt, copy_from, make_room, finish_excerpt, replacement,
  marker,
}
use qbrain.Utf8.Scalars.{IsScalar, encode}
use qbrain.Utf8.Valid.{Scalars, encode_all, encode-length, valid_utf8_iff}
use qbrain.Utf8.Back.{
  IsBack, IsBack-IsText, IsBack-nil, IsBack-snoc, copy_from-IsBack, drop_last, from_back,
}

copy_from_bound :
    (m fuel : ℕ) (s out : Bytes) → length out ≤ m → length (copy_from m fuel s out).0 ≤ m
unfolding copy_from
copy_from_bound m zero s out h = h
copy_from_bound m (suc fuel) [] out h = h
copy_from_bound m (suc fuel) (a ∷ s) out h = ground (
  arith,
  copy_from_bound m fuel (drop 1 (a ∷ s)) (out ++ replacement),
  copy_from_bound m fuel (drop (utf8_scalar_size (a ∷ s)) (a ∷ s))
      (out ++ take (utf8_scalar_size (a ∷ s)) (a ∷ s)),
  length-append out replacement,
  length-append out (take (utf8_scalar_size (a ∷ s)) (a ∷ s)),
  length-take (utf8_scalar_size (a ∷ s)) (a ∷ s),
)

is_empty_of_length : (s : Bytes) → 1 ≤ length s → is_empty s ≡ false
is_empty_of_length [] h = absurd (omega arith)
is_empty_of_length (a ∷ s) h = refl

snoc_length : (p : Bytes) (cp : ℕ) → length p < length (p ++ encode cp)
snoc_length p cp = omega (arith, length-append p (encode cp), encode-length cp)

make_room_round :
    (limit fuel : ℕ) (p : Bytes) (cp : ℕ)
    → IsScalar cp
    → make_room limit (suc fuel) (p ++ encode cp)
      ≡ (if ltb limit (length (p ++ encode cp)) then make_room limit fuel p else p ++ encode cp)
unfolding make_room
make_room_round limit fuel p cp h =
    rw (drop_last p cp h, is_empty_of_length (p ++ encode cp) (omega (arith, snoc_length p cp)))

make_room-IsBack :
    (limit fuel : ℕ) (cps : List ℕ) → Scalars cps → IsBack (make_room limit fuel (from_back cps))
unfolding from_back
make_room-IsBack limit zero cps h = unfold make_room IsBack in (cps, h, refl)
make_room-IsBack limit (suc fuel) [] h = unfold make_room in IsBack-nil
make_room-IsBack limit (suc fuel) (cp ∷ cps) (h, hs) =
    rw (make_room_round limit fuel (from_back cps) cp h) (
      ground (
        arith,
        make_room-IsBack limit fuel cps hs,
        IsBack-snoc (from_back cps) (encode cp) cp h refl (unfold IsBack in (cps, hs, refl)),
      ))

make_room_bound :
    (limit fuel : ℕ) (cps : List ℕ)
    → Scalars cps
    → length (from_back cps) ≤ fuel
    → length (make_room limit fuel (from_back cps)) ≤ limit
unfolding from_back
make_room_bound limit zero [] h f = unfold make_room in omega arith
make_room_bound limit zero (cp ∷ cps) h f = absurd (omega (arith, snoc_length (from_back cps) cp))
make_room_bound limit (suc fuel) [] h f = unfold make_room in omega arith
make_room_bound limit (suc fuel) (cp ∷ cps) (h, hs) f =
    rw (make_room_round limit fuel (from_back cps) cp h)
      (ground (arith, make_room_bound limit fuel cps hs, snoc_length (from_back cps) cp))

encode_all-ascii : (s : Bytes) → All (λ c. c < 0x80) s → encode_all s ≡ s
unfolding encode_all
encode_all-ascii [] h = refl
encode_all-ascii (c ∷ s) (h, hs) = rw (encode_all-ascii s hs) (unfold encode in ground arith)

IsBack-append-ascii : (out s : Bytes) → IsBack out → All (λ c. c < 0x80) s → IsBack (out ++ s)
IsBack-append-ascii out [] b h = rw (append-nil out) b
IsBack-append-ascii out (c ∷ s) b (h, hs) = subst IsBack (append_assoc out (c ∷ []) s) (
    IsBack-append-ascii (out ++ c ∷ []) s
      (IsBack-snoc out (c ∷ []) c (omega arith) (unfold encode in ground arith) b) hs)

finish_bound :
    (m : ℕ) (mark : Bool) (out unread : Bytes)
    → IsBack out
    → length out ≤ m
    → length (finish_excerpt m mark (out, unread)) ≤ m
unfolding finish_excerpt IsBack
finish_bound m mark out unread (cps, hs, e) h = ground (
  arith,
  length-append (make_room (m - 11) (length out) out) marker,
  rw e at (make_room_bound (m - 11) (length (from_back cps)) cps hs (omega arith)),
)

make_room_keeps-IsBack :
    (limit fuel : ℕ) (out : Bytes) → IsBack out → IsBack (make_room limit fuel out)
unfolding IsBack
make_room_keeps-IsBack limit fuel out (cps, hs, e) =
    subst (λ t. IsBack (make_room limit fuel t)) e (make_room-IsBack limit fuel cps hs)

finish-IsBack :
    (m : ℕ) (mark : Bool) (out unread : Bytes)
    → IsBack out
    → IsBack (finish_excerpt m mark (out, unread))
unfolding finish_excerpt
finish-IsBack m mark out unread b = ground (
  arith,
  b,
  IsBack-append-ascii (make_room (m - 11) (length out) out) marker
      (make_room_keeps-IsBack (m - 11) (length out) out b) (omega arith),
)

-- The copy never passes its budget, the marker included.
pub utf8_excerpt_bound :
    (s : Bytes) (max_bytes : ℕ) (mark : Bool) → length (utf8_excerpt s max_bytes mark) ≤ max_bytes
unfolding utf8_excerpt
utf8_excerpt_bound s m mark =
    finish_bound m mark _ _ (copy_from-IsBack m (length s) s [] IsBack-nil)
      (copy_from_bound m (length s) s [] (omega arith))

-- Whatever the bytes and the budget, the copy is well-formed UTF-8.
pub utf8_excerpt-valid_utf8 :
    (s : Bytes) (max_bytes : ℕ) (mark : Bool) → valid_utf8 (utf8_excerpt s max_bytes mark) ≡ true
unfolding utf8_excerpt
utf8_excerpt-valid_utf8 s m mark =
    (valid_utf8_iff _).1
      (IsBack-IsText _ (finish-IsBack m mark _ _ (copy_from-IsBack m (length s) s [] IsBack-nil)))
