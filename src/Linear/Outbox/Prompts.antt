-- ===== src/Linear/Outbox/Prompts.antt =====
-- Who answers a prompt: `first_value`, `prompt_disposition`, `remember_ordinary_prompt`, `prompt_answer_reserved`,
-- `reserve_prompt_answer` and `release_prompt_answer` of store.py. A token is what `uuid4` gives.
use mathlib.Core.Path.{subst}
use hermes_fleet.Prelude.{
  ◌≡◌, ◌≢◌, refl, sym, ap, ◌∙◌, ◌⊎◌, inl, inr, Bool, true, false, not, Option, none, some, List, [],
  ◌∷◌, ◌++◌, if◌then◌else◌, if_cases, list_eq, nat_eq, ◌==◌, list_beq_iff, option_eq,
  option_beq_iff, by_test,
}
use hermes_fleet.Prelude.Dict.{Dict, get, put, get-put, get-put_self}
use hermes_fleet.Prelude.Text.{Text, codes}

-- A prompt: its issue, session and activity
abbrev pub Prompt : Type 0
Prompt = Text × (Text × Text)

-- The texts of the table "metadata"; `dumps` is `json.dumps` of a list of texts.
module _ (dumps : List Text → Text) where
  abbrev pub prompt_answer_key : Prompt → Text
  prompt_answer_key (issue, (session, activity)) =
      codes "native-prompt-answer:" ++ dumps (issue ∷ session ∷ activity ∷ [])

-- `INSERT OR IGNORE`
abbrev pub insert_new : Option Text → Text → Text → Dict Text Text → Dict Text Text
insert_new none key value m = put m key value
insert_new (some old) key value m = m

abbrev pub or_text : Option Text → Text → Text
or_text none value = value
or_text (some old) value = old

unfoldable pub first_value : Text → Text → Dict Text Text → Text × Dict Text Text
first_value key value m =
    let after = insert_new (get m key) key value m in (or_text (get after key) value, after)

abbrev pub ordinary : Text
ordinary = codes "ordinary"

module _ (dumps : List Text → Text) (p : Prompt) where
  unfoldable pub prompt_disposition : Dict Text Text → Option Text
  prompt_disposition m = get m (prompt_answer_key dumps p)

  unfoldable pub remember_ordinary_prompt : Dict Text Text → Bool × Dict Text Text
  unfolding first_value
  remember_ordinary_prompt m =
      let (saved, after) = first_value (prompt_answer_key dumps p) ordinary m in
      (saved == ordinary, after)

  unfoldable pub prompt_answer_reserved : Dict Text Text → Bool
  unfolding prompt_disposition
  prompt_answer_reserved m = elim (prompt_disposition m) [
    | none ↦ false
    | some saved ↦ not (saved == ordinary)
  ]

  unfoldable pub reserve_prompt_answer : Text → Dict Text Text → Option Text × Dict Text Text
  unfolding first_value
  reserve_prompt_answer token m =
      let (saved, after) = first_value (prompt_answer_key dumps p) token m in
      (if saved == token then some token else none, after)

  unfoldable pub release_prompt_answer : Text → Dict Text Text → Dict Text Text
  release_prompt_answer token m =
      let key = prompt_answer_key dumps p in
      if get m key == some token then put m key ordinary else m

-- A call of one of these, for any prompt
pub data Call : Type 0 where
  remembers : Prompt → Call
  reserves : Prompt → Text → Call
  releases : Prompt → Text → Call

unfoldable pub apply : (List Text → Text) → Call → Dict Text Text → Dict Text Text
unfolding remember_ordinary_prompt reserve_prompt_answer release_prompt_answer
apply dumps (remembers p) m = (remember_ordinary_prompt dumps p m).1
apply dumps (reserves p token) m = (reserve_prompt_answer dumps p token m).1
apply dumps (releases p token) m = release_prompt_answer dumps p token m

unfoldable pub apply_all : (List Text → Text) → List Call → Dict Text Text → Dict Text Text
unfolding apply
apply_all dumps [] m = m
apply_all dumps (c ∷ cs) m = apply_all dumps cs (apply dumps c m)

-- The key has that value, or that of an ordinary prompt.
abbrev Claimed : Text → Text → Dict Text Text → Type 0
Claimed key v m = (get m key ≡ some v) ⊎ (get m key ≡ some ordinary)

insert_new-get :
    (o : Option Text) (key k value v : Text) (m : Dict Text Text)
    → get m k ≡ o
    → get m key ≡ some v
    → get (insert_new o k value m) key ≡ some v
insert_new-get (some old) key k value v m e h = h
insert_new-get none key k value v m e h =
    get-put m k key value
    ∙ by_test (λ b. (k == key) ≡ b → (if b then some value else get m key) ≡ some v) (k == key)
        (λ t t'.
          let same : k ≡ key = (list_beq_iff k key).0 t in
          let clash : none ≡ some v = sym e ∙ subst (λ k. get m k ≡ some v) (sym same) h in cc)
        (λ t t'. h) refl

first_value-get :
    (key k value v : Text) (m : Dict Text Text)
    → get m key ≡ some v
    → get (first_value k value m).1 key ≡ some v
unfolding first_value
first_value-get key k value v m h = insert_new-get (get m k) key k value v m refl h

first_value-Claimed :
    (key k value v : Text) (m : Dict Text Text)
    → Claimed key v m
    → Claimed key v (first_value k value m).1
first_value-Claimed key k value v m (inl h) = inl (first_value-get key k value v m h)
first_value-Claimed key k value v m (inr h) = inr (first_value-get key k value ordinary m h)

put-Claimed :
    (key k v : Text) (m : Dict Text Text) → Claimed key v m → Claimed key v (put m k ordinary)
put-Claimed key k v m h =
    by_test
      (λ b.
        (if b then some ordinary else get m key) ≡ get (put m k ordinary) key
        → Claimed key v (put m k ordinary))
      (k == key) (λ t e. inr (sym e))
      (λ t e. elim h [ inl g ↦ inl (sym e ∙ g) | inr g ↦ inr (sym e ∙ g) ])
      (sym (get-put m k key ordinary))

module _ (dumps : List Text → Text) (key v : Text) where
  apply-Claimed :
      (c : Call) (m : Dict Text Text) → Claimed key v m → Claimed key v (apply dumps c m)
  unfolding apply remember_ordinary_prompt reserve_prompt_answer release_prompt_answer
  apply-Claimed (remembers p) m h =
      first_value-Claimed key (prompt_answer_key dumps p) ordinary v m h
  apply-Claimed (reserves p token) m h =
      first_value-Claimed key (prompt_answer_key dumps p) token v m h
  apply-Claimed (releases p token) m h =
      let k = prompt_answer_key dumps p in
      if_cases (Claimed key v) (get m k == some token) (put m k ordinary) m
        (λ t. put-Claimed key k v m h) (λ t. h)

  apply_all-Claimed :
      (cs : List Call) (m : Dict Text Text) → Claimed key v m → Claimed key v (apply_all dumps cs m)
  unfolding apply_all
  apply_all-Claimed [] m h = h
  apply_all-Claimed (c ∷ cs) m h = apply_all-Claimed cs (apply dumps c m) (apply-Claimed c m h)

-- What `first_value` returns is what the table holds afterwards.
or_text-get : (o : Option Text) (value v : Text) → o ≡ some v → o ≡ some (or_text o value)
or_text-get none value v h = cc
or_text-get (some old) value v h = refl

insert_new-some :
    (o : Option Text) (key value : Text) (m : Dict Text Text)
    → get m key ≡ o
    → (v : Text) × (get (insert_new o key value m) key ≡ some v)
insert_new-some none key value m e = (value, get-put_self m key value)
insert_new-some (some old) key value m e = (old, e)

first_value_lem :
    (key value : Text) (m : Dict Text Text)
    → get (first_value key value m).1 key ≡ some (first_value key value m).0
unfolding first_value
first_value_lem key value m =
    let (v, h) = insert_new-some (get m key) key value m refl in
    or_text-get (get (insert_new (get m key) key value m) key) value v h

-- A reservation that returned its token: the table holds it.
reserved-get :
    (dumps : List Text → Text) (p : Prompt) (token : Text) (m : Dict Text Text)
    → (reserve_prompt_answer dumps p token m).0 ≡ some token
    → get (reserve_prompt_answer dumps p token m).1 (prompt_answer_key dumps p) ≡ some token
unfolding reserve_prompt_answer
reserved-get dumps p token m h =
    let key = prompt_answer_key dumps p in
    let saved = (first_value key token m).0 in
    first_value_lem key token m
    ∙ ap some (
        by_test
          (λ b.
            (if b then some token else none) ≡ some token → (saved == token) ≡ b → saved ≡ token)
          (saved == token) (λ t h e. (list_beq_iff saved token).0 e) (λ t h e. cc) h refl)

-- A claim of one value refuses a reservation with another token.
Claimed-refuses :
    (dumps : List Text → Text) (p : Prompt) (v token : Text) (m : Dict Text Text)
    → Claimed (prompt_answer_key dumps p) v m
    → token ≢ v
    → token ≢ ordinary
    → (reserve_prompt_answer dumps p token m).0 ≡ none
unfolding reserve_prompt_answer
Claimed-refuses dumps p v token m h n o =
    let key = prompt_answer_key dumps p in
    let saved = (first_value key token m).0 in
    let after = first_value_lem key token m in
    by_test (λ b. (saved == token) ≡ b → (if b then some token else none) ≡ none) (saved == token)
      (λ t e.
        let same = (list_beq_iff saved token).0 e in
        let now = after ∙ ap some same in
        elim (first_value-Claimed key key token v m h) [
          | inl g ↦ let clash : token ≡ v = cc in absurd (n clash)
          | inr g ↦ let clash : token ≡ ordinary = cc in absurd (o clash)
        ])
      (λ t e. refl) refl

-- Once a reservation of a prompt's answer has returned its token, no other token is ever given the same
-- prompt, whatever is remembered, reserved or released in between, for this prompt or another.
pub one_answer :
    (dumps : List Text → Text) (p : Prompt) (token other : Text) (cs : List Call)
    (m : Dict Text Text)
    → (reserve_prompt_answer dumps p token m).0 ≡ some token
    → other ≢ token
    → other ≢ ordinary
    → (reserve_prompt_answer dumps p other
        (apply_all dumps cs (reserve_prompt_answer dumps p token m).1)).0
      ≡ none
one_answer dumps p token other cs m h n o =
    Claimed-refuses dumps p token other _
      (apply_all-Claimed dumps (prompt_answer_key dumps p) token cs _
        (inl (reserved-get dumps p token m h)))
      n o

-- A reservation that is released leaves the prompt ordinary, and ordinary it stays, whatever is remembered,
-- reserved or released afterwards, for this prompt or another.
pub released_is_ordinary :
    (dumps : List Text → Text) (p : Prompt) (token : Text) (cs : List Call) (m : Dict Text Text)
    → (reserve_prompt_answer dumps p token m).0 ≡ some token
    → prompt_disposition dumps p (
        apply_all dumps cs
          (release_prompt_answer dumps p token (reserve_prompt_answer dumps p token m).1))
      ≡ some ordinary
unfolding prompt_disposition release_prompt_answer
released_is_ordinary dumps p token cs m h =
    let key = prompt_answer_key dumps p in
    let after = (reserve_prompt_answer dumps p token m).1 in
    let stands = reserved-get dumps p token m h in
    let found : (get after key == some token) ≡ true =
      (option_beq_iff (get after key) (some token)).1 stands in
    elim (apply_all-Claimed dumps key ordinary cs
      (if get after key == some token then put after key ordinary else after)
      (subst (λ b. Claimed key ordinary (if b then put after key ordinary else after)) (sym found)
        (inl (get-put_self after key ordinary)))) [ inl g ↦ g | inr g ↦ g ]
