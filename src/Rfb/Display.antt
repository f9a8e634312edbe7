-- ===== src/Rfb/Display.antt =====
-- What Observe lets through: `client_message` in the normal stage releases whole display records only.
use hermes_fleet.Prelude.{
  ℕ, zero, suc, ◌+◌, ◌*◌, ◌≤◌, ◌<◌, ◌≡◌, refl, sym, ap, ◌∙◌, false, ◌&&◌, List, [], ◌∷◌, ◌++◌,
  arith, length, take, drop, if_cases, ltb, ltb_false→le, nat_beq, nat_beq_iff, contains,
  length-take, take-append-drop, nat_eq, list_eq,
}
use mathlib.Core.Path.{subst}
use mathlib.Core.List.{append_assoc}
use hermes_fleet.Rfb.Bytes.{max_message, max_encodings, max_fence_payload, byte_at, be16}
use hermes_fleet.Rfb.Observe.{
  Stage, normal, is_normal, Rfb, Outcome, ok, refused, Needed, later, bytes, bad, within,
  normal_length, record_length, validate_record, Split, split, broken, take_record, validated,
  client_loop, after_client, client_message,
}

-- The five records of RFB that ask for a picture and cannot press a key or move the pointer.
pub data IsDisplayRecord (rec : List ℕ) : Type 0 where
  set_pixel_format : byte_at rec 0 ≡ 0 → length rec ≡ 20 → IsDisplayRecord rec
  set_encodings :
      byte_at rec 0 ≡ 2 → be16 rec 2 ≤ 4096 → length rec ≡ 4 + 4 * be16 rec 2 → IsDisplayRecord rec
  update_request : byte_at rec 0 ≡ 3 → length rec ≡ 10 → IsDisplayRecord rec
  continuous_updates : byte_at rec 0 ≡ 150 → length rec ≡ 10 → IsDisplayRecord rec
  fence :
      byte_at rec 0 ≡ 248
      → byte_at rec 8 ≤ 64
      → length rec ≡ 9 + byte_at rec 8
      → IsDisplayRecord rec

pub data DisplayRecords : List ℕ → Type 0 where
  none_left : DisplayRecords []
  one_more :
      {out : List ℕ} (rec all : List ℕ)
      → DisplayRecords out
      → IsDisplayRecord rec
      → all ≡ out ++ rec
      → DisplayRecords all

byte_at-take : (n i : ℕ) (d : List ℕ) → i < n → byte_at (take n d) i ≡ byte_at d i
byte_at-take zero i d h = absurd (omega arith)
byte_at-take (suc n) i [] h = refl
byte_at-take (suc n) zero (x ∷ d) h = refl
byte_at-take (suc n) (suc i) (x ∷ d) h = byte_at-take n i d (omega arith)

be16-take : (n i : ℕ) (d : List ℕ) → i + 1 < n → be16 (take n d) i ≡ be16 d i
unfolding be16
be16-take n i d h =
    omega (arith, byte_at-take n i d (omega arith), byte_at-take n (i + 1) d (omega arith))

-- A record whose length is known: it is there, and it is a display record.
record Whole (n : ℕ) (d : List ℕ) : Type 0 where
  there : n ≤ length d
  some_byte : 0 < n
  display : IsDisplayRecord (take n d)

within-eq : (k n : ℕ) (d : List ℕ) → within k d ≡ bytes n → (k ≡ n) × (k ≤ length d)
within-eq k n d h = ground arith

module _ (kind : ℕ) (rest : List ℕ) (n : ℕ) where
  abbrev d : List ℕ
  d = kind ∷ rest

  fixed_Whole :
      (k : ℕ)
      → 0 < k
      → within k d ≡ bytes n
      → (length (take k d) ≡ k → IsDisplayRecord (take k d))
      → Whole n d
  fixed_Whole k pos h display =
      let (same, there) = within-eq k n d h in
      rw (← same)
        (record { there = there; some_byte = pos; display = display (length-take k d there) })

  encodings_Whole :
      kind ≡ 2
      → ltb max_encodings (be16 d 2) ≡ false
      → within (4 + 4 * be16 d 2) d ≡ bytes n
      → Whole n d
  encodings_Whole is fits h = fixed_Whole (4 + 4 * be16 d 2) (omega arith) h λ len.
      let same = be16-take (4 + 4 * be16 d 2) 2 d (omega arith) in
      set_encodings (byte_at-take (4 + 4 * be16 d 2) 0 d (omega arith) ∙ is)
        (rw same (ltb_false→le _ _ fits)) (rw same len)

  fence_Whole :
      kind ≡ 248
      → ltb max_fence_payload (byte_at d 8) ≡ false
      → within (9 + byte_at d 8) d ≡ bytes n
      → Whole n d
  fence_Whole is fits h = fixed_Whole (9 + byte_at d 8) (omega arith) h λ len.
      let same = byte_at-take (9 + byte_at d 8) 8 d (omega arith) in
      fence (byte_at-take (9 + byte_at d 8) 0 d (omega arith) ∙ is)
        (rw same (ltb_false→le _ _ fits)) (rw same len)

  abbrev Sound : Needed → Type 0
  Sound x = x ≡ bytes n → Whole n d

  -- The head of a record of ten bytes.
  ten_Whole :
      (k : ℕ)
      → kind ≡ k
      → (byte_at (take 10 d) 0 ≡ k → length (take 10 d) ≡ 10 → IsDisplayRecord (take 10 d))
      → Sound (within 10 d)
  ten_Whole k is display h = fixed_Whole 10 (omega arith) h (display is)

  -- The ladder of tests on the kind, one rung for each record.
  normal_length-Whole : Sound (normal_length d)
  unfolding normal_length
  normal_length-Whole =
      if_cases Sound (nat_beq kind 0) _ _
        (λ t h. fixed_Whole 20 (omega arith) h (set_pixel_format ((nat_beq_iff _ _).0 t)))
        λ _.
          if_cases Sound (nat_beq kind 2) _ _
            (λ t.
              if_cases Sound (ltb (length d) 4) _ _ (λ _ h. cc)
                λ _.
                  if_cases Sound (ltb max_encodings (be16 d 2)) _ _ (λ _ h. cc)
                    λ fits h. encodings_Whole ((nat_beq_iff _ _).0 t) fits h)
            λ _.
              if_cases Sound (nat_beq kind 3) _ _
                (λ t. ten_Whole 3 ((nat_beq_iff _ _).0 t) update_request)
                λ _.
                  if_cases Sound (nat_beq kind 150) _ _
                    (λ t. ten_Whole 150 ((nat_beq_iff _ _).0 t) continuous_updates)
                    λ _.
                      if_cases Sound (nat_beq kind 248) _ _
                        (λ t.
                          if_cases Sound (ltb (length d) 9) _ _ (λ _ h. cc)
                            λ _.
                              if_cases Sound (ltb max_fence_payload (byte_at d 8)) _ _ (λ _ h. cc)
                                λ fits h. fence_Whole ((nat_beq_iff _ _).0 t) fits h)
                        λ _ h. cc

normal-Whole : (d : List ℕ) (n : ℕ) → record_length normal d ≡ bytes n → Whole n d
unfolding record_length normal_length
normal-Whole [] n h = cc
normal-Whole (kind ∷ rest) n h = normal_length-Whole kind rest n h

-- What holds when the loop stops: whole display records, in the normal stage, and no byte is lost.
abbrev Passed : List ℕ → List ℕ → Split → Type 0
Passed out d (split st o rest) = DisplayRecords o × (st ≡ normal) × (o ++ rest ≡ out ++ d)
Passed out d (broken e st) = Unit

validated-Passed :
    (out d rec : List ℕ) (k : Stage → Split)
    → Passed out d (k normal)
    → Passed out d (validated (validate_record normal rec) normal k)
unfolding validate_record
validated-Passed out d rec k h =
    if_cases (λ v. Passed out d (validated v normal k))
      (contains (byte_at rec 0) (0 ∷ 2 ∷ 3 ∷ 150 ∷ 248 ∷ [])) _ _ (λ t. h) (λ t. tt)

take_record-Passed :
    (x : Needed) (out d : List ℕ) (k : ℕ → Split)
    → DisplayRecords out
    → ((n : ℕ) → x ≡ bytes n → Passed out d (k n))
    → Passed out d (take_record x normal out d k)
take_record-Passed later out d k h more = (h, refl, refl)
take_record-Passed (bad e) out d k h more = tt
take_record-Passed (bytes n) out d k h more =
    if_cases (Passed out d) (ltb (length d) n) _ _ (λ t. (h, refl, refl)) (λ t. more n refl)

-- The same data, with a record moved to the front part.
moved : (out d : List ℕ) (n : ℕ) → (out ++ take n d) ++ drop n d ≡ out ++ d
moved out d n = append_assoc out (take n d) (drop n d) ∙ ap (λ r. out ++ r) (take-append-drop n d)

Passed-moved :
    (out d : List ℕ) (n : ℕ) (s : Split) → Passed (out ++ take n d) (drop n d) s → Passed out d s
Passed-moved out d n (split st o rest) h = (h.0, h.1, h.2 ∙ moved out d n)
Passed-moved out d n (broken e st) h = tt

client_loop-Passed :
    (fuel : ℕ) (out d : List ℕ) → DisplayRecords out → Passed out d (client_loop fuel normal out d)
unfolding client_loop
client_loop-Passed zero out d h = (h, refl, refl)
client_loop-Passed (suc fuel) out d h = take_record-Passed (record_length normal d) out d _ h λ n e.
    validated-Passed out d (take n d) _ (
      Passed-moved out d n _ (
        client_loop-Passed fuel (out ++ take n d) (drop n d)
          (one_more (take n d) _ h (normal-Whole d n e).display refl)))

abbrev Safe : List ℕ → Rfb → Outcome (List ℕ) → Type 0
Safe payload r (refused e r') = Unit
Safe payload r (ok out r') = DisplayRecords out × (r'.client_stage ≡ normal)

after_client-Safe :
    (payload out d : List ℕ) (r : Rfb) (s : Split)
    → Passed out d s
    → Safe payload r (after_client s r)
after_client-Safe payload out d r (split st o rest) h = (h.0, h.1)
after_client-Safe payload out d r (broken e st) h = tt

-- In the normal stage, whatever the viewer sends and however it is cut into messages, Observe sends on
-- whole display records and nothing else: no key, pointer or clipboard record, and no part of one.
pub observe_display_only :
    (payload : List ℕ) (r : Rfb) (out : List ℕ) (r' : Rfb)
    → r.client_stage ≡ normal
    → client_message payload r ≡ ok out r'
    → DisplayRecords out × (r'.client_stage ≡ normal)
unfolding client_message
observe_display_only payload r out r' st h = subst (Safe payload r) h (
    if_cases (Safe payload r) (is_normal r.client_stage && r.takeover_partial) _ _
      (λ t. (none_left, st))
      λ _.
        if_cases (Safe payload r) (ltb max_message (length (r.client ++ payload))) _ _ (λ t. tt)
          λ _.
            subst
              (λ s. Safe payload r (
                after_client
                  (client_loop (suc (length (r.client ++ payload))) s [] (r.client ++ payload)) r))
              (sym st)
              (after_client-Safe payload [] (r.client ++ payload) r _ (
                client_loop-Passed (suc (length (r.client ++ payload))) [] (r.client ++ payload)
                  none_left)))
