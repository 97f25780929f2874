-- ===== src/ChatLog/Views/Pages.antt =====
-- app/history/chat_log.py: what a page of `list_messages` is.
use mathlib.Core.List.{reverse, reverse-append, reverse-reverse, reverse-cons}
use paper_collector_agent.Prelude.{
  ℕ, zero, suc, ◌+◌, ◌<◌, ◌≤◌, String, ◌≡◌, ◌≢◌, refl, sym, ap, ◌∙◌, Bool, true, ◌&&◌, Option, none,
  some, List, [], ◌∷◌, ◌++◌, arith, length, length-append, length-take, take, drop,
  take-append-drop, select, All, ltb, if◌then◌else◌, Pairwise, Pairwise-select, inl, inr,
  Bool-cases,
}
use paper_collector_agent.ChatLog.Types.{Message, Db}
use paper_collector_agent.ChatLog.Views.{
  in_dialogue, is_before, first_id, page, message_rows, message_page,
}

-- The messages of a conversation before a key, in the order of their keys.
unfoldable pub older : ℕ → String → Option ℕ → Db → List Message
older user_number conversation_id before_id db =
    select (is_before before_id) (select (in_dialogue user_number conversation_id) db.messages)

-- What stands before a page: nothing, or the messages before its next key.
unfoldable pub before_page : ℕ → String → Option ℕ → Db → List Message
unfolding older
before_page user_number conversation_id none db = []
before_page user_number conversation_id (some next) db =
    older user_number conversation_id (some next) db

take-take {ℓ} : {A : Type ℓ} (n : ℕ) (xs : List A) → take n (take (suc n) xs) ≡ take n xs
take-take zero xs = refl
take-take (suc n) [] = refl
take-take (suc n) (x ∷ xs) = ap (λ l. x ∷ l) (take-take n xs)

take_short {ℓ} : {A : Type ℓ} (n : ℕ) (xs : List A) → length xs ≤ n → take n xs ≡ xs
take_short zero [] h = refl
take_short zero (x ∷ xs) h = absurd (omega arith)
take_short (suc n) [] h = refl
take_short (suc n) (x ∷ xs) h = ap (λ l. x ∷ l) (take_short n xs (omega arith))

-- One row more than the page shows whether there are older messages.
page_lem :
    (limit : ℕ) (rows : List Message)
    → page limit (take (limit + 1) rows) ≡ (
      reverse (take limit rows),
      if ltb limit (length rows) then first_id (reverse (take limit rows)) else none,
    )
unfolding page
page_lem limit rows =
    let e : (limit + 1) ≡ suc limit = omega arith in
    let f : ltb limit (length (take (suc limit) rows)) ≡ ltb limit (length rows) =
      rw (length-take (suc limit) rows) (ground arith) in
    rw (e, take-take limit rows, f) refl

select-select :
    (p q : Message → Bool) (xs : List Message)
    → select (λ m. p m && q m) xs ≡ select q (select p xs)
select-select p q [] = refl
select-select p q (m ∷ xs) = ground (arith, select-select p q xs)

select_none :
    (k : ℕ) (xs : List Message) → All (λ m. k < m.id) xs → select (is_before (some k)) xs ≡ []
unfolding is_before
select_none k [] h = refl
select_none k (m ∷ xs) h = ground (arith, h.0, select_none k xs h.1)

abbrev pub IsRising : List Message → Type 0
IsRising = Pairwise (λ m n. m.id < n.id)

All-middle {ℓ κ} :
    {A : Type ℓ} (P : A → Type κ) (xs : List A) (y : A) (ys : List A) → All P (xs ++ y ∷ ys) → P y
All-middle P [] y ys h = h.0
All-middle P (x ∷ xs) y ys h = All-middle P xs y ys h.1

-- Before the key of a message stands what precedes it.
cut_before :
    (front : List Message) (m : Message) (back : List Message)
    → IsRising (front ++ m ∷ back)
    → select (is_before (some m.id)) (front ++ m ∷ back) ≡ front
unfolding is_before
cut_before [] m back h = ground (arith, select_none m.id back h.0)
cut_before (x ∷ front) m back h =
    ground (arith, All-middle (λ n. x.id < n.id) front m back h.0, cut_before front m back h.1)

-- What stands before an earlier key stands before a later one.
before_both :
    (before_id : Option ℕ) (k : ℕ) (xs : List Message)
    → ((m : Message) → m.id < k → is_before before_id m ≡ true)
    → select (is_before (some k)) (select (is_before before_id) xs) ≡ select (is_before (some k)) xs
unfolding is_before
before_both before_id k [] h = refl
before_both before_id k (m ∷ xs) h = ground (arith, h m, before_both before_id k xs h)

All-is_before :
    (before_id : Option ℕ) (xs : List Message)
    → All (λ m. is_before before_id m ≡ true) (select (is_before before_id) xs)
All-is_before before_id [] = tt
All-is_before before_id (m ∷ xs) = elim (Bool-cases (is_before before_id m)) [
  | inl e ↦ rw e (e, All-is_before before_id xs)
  | inr e ↦ rw e (All-is_before before_id xs)
]

earlier :
    (before_id : Option ℕ) (m n : Message)
    → is_before before_id m ≡ true
    → n.id < m.id
    → is_before before_id n ≡ true
unfolding is_before
earlier none m n h lt = refl
earlier (some k) m n h lt = ground arith

-- The messages before the key of one of them are those in front of it.
older_cut :
    (user_number : ℕ) (conversation_id : String) (before_id : Option ℕ) (db : Db)
    (front : List Message) (m : Message) (back : List Message)
    → IsRising db.messages
    → older user_number conversation_id before_id db ≡ front ++ m ∷ back
    → older user_number conversation_id (some m.id) db ≡ front
unfolding older
older_cut user_number conversation_id before_id db front m back rising e =
    let all = select (in_dialogue user_number conversation_id) db.messages in
    let rising' : IsRising (front ++ m ∷ back) = rw (← e) (
      Pairwise-select _ (is_before before_id) all
        (Pairwise-select _ (in_dialogue user_number conversation_id) db.messages rising)) in
    let inside : All (λ n. is_before before_id n ≡ true) (front ++ m ∷ back) =
      rw (← e) (All-is_before before_id all) in
    let held = All-middle (λ n. is_before before_id n ≡ true) front m back inside in
    sym (before_both before_id m.id all (λ n lt. earlier before_id m n held lt))
    ∙ ap (select (is_before (some m.id))) e
    ∙ cut_before front m back rising'

-- A page is what stands between the messages before its next key and the key before which it was
-- asked for.
page_splits :
    (user_number : ℕ) (conversation_id : String) (before_id : Option ℕ) (db : Db)
    (shown front : List Message)
    → IsRising db.messages
    → older user_number conversation_id before_id db ≡ front ++ shown
    → shown ≢ []
    → older user_number conversation_id before_id db
      ≡ before_page user_number conversation_id (first_id shown) db ++ shown
unfolding before_page
page_splits user_number conversation_id before_id db [] front rising e some_shown =
    absurd (some_shown refl)
page_splits user_number conversation_id before_id db (m ∷ back) front rising e some_shown =
    unfold first_id in
    e ∙ rw (older_cut user_number conversation_id before_id db front m back rising e) refl

length-reverse {ℓ} : {A : Type ℓ} (xs : List A) → length (reverse xs) ≡ length xs
length-reverse [] = refl
length-reverse (x ∷ xs) =
    rw (reverse-cons x xs, length-append (reverse xs) (x ∷ [])) (omega (arith, length-reverse xs))

-- The newest rows, in the order of their keys, behind the others.
newest_last {ℓ} :
    {A : Type ℓ} (limit : ℕ) (xs : List A)
    → xs ≡ reverse (drop limit (reverse xs)) ++ reverse (take limit (reverse xs))
newest_last limit xs =
    sym (reverse-reverse xs)
    ∙ ap reverse (sym (take-append-drop limit (reverse xs)))
    ∙ reverse-append (take limit (reverse xs)) (drop limit (reverse xs))

newest_some {ℓ} :
    {A : Type ℓ} (limit : ℕ) (xs : List A)
    → 0 < limit
    → limit < length xs
    → reverse (take limit xs) ≢ []
newest_some limit xs h long e =
    let n = sym (length-reverse (take limit xs)) ∙ ap length e in
    let k = length-take limit xs in omega arith

-- The page, from the messages before the key.
page_of :
    (user_number : ℕ) (conversation_id : String) (limit : ℕ) (before_id : Option ℕ) (db : Db)
    → message_page user_number conversation_id limit before_id db ≡ (
      reverse (take limit (reverse (older user_number conversation_id before_id db))),
      if ltb limit (length (reverse (older user_number conversation_id before_id db)))
          then first_id
              (reverse (take limit (reverse (older user_number conversation_id before_id db))))
          else none,
    )
unfolding message_page message_rows older
page_of user_number conversation_id limit before_id db =
    rw (select-select (in_dialogue user_number conversation_id) (is_before before_id) db.messages)
      (page_lem limit (reverse (older user_number conversation_id before_id db)))

-- In a store whose message keys rise, a page of a positive size that list_messages shows is preceded
-- by exactly the messages before its next key, and by none if it has no next key.
pub message_page_lem :
    (user_number : ℕ) (conversation_id : String) (limit : ℕ) (before_id : Option ℕ) (db : Db)
    → 0 < limit
    → IsRising db.messages
    → (older user_number conversation_id before_id db
        ≡ before_page user_number conversation_id
            (message_page user_number conversation_id limit before_id db).1
            db
          ++ (message_page user_number conversation_id limit before_id db).0)
      × (length (message_page user_number conversation_id limit before_id db).0 ≤ limit)
unfolding before_page
message_page_lem user_number conversation_id limit before_id db h rising =
    let all = older user_number conversation_id before_id db in
    let size : length (reverse (take limit (reverse all))) ≤ limit =
      let a = length-reverse (take limit (reverse all)) in
      let b = length-take limit (reverse all) in omega arith in
    rw (page_of user_number conversation_id limit before_id db)
      (elim (Bool-cases (ltb limit (length (reverse all)))) [
        | inl e ↦ rw e (
          page_splits user_number conversation_id before_id db _ _ rising (newest_last limit all)
              (newest_some limit (reverse all) h (ground arith)),
          size,
        )
        | inr e ↦ rw e (
          sym (reverse-reverse all)
              ∙ ap reverse (sym (take_short limit (reverse all) (ground arith))),
          size,
        )
      ])
