-- ===== src/ChatLog/Triples.antt =====
-- Pre- and postconditions of transactions, one rule for each way to build one.
use paper_collector_agent.Prelude.{
  ◌≡◌, refl, Bool, true, false, Option, none, some, Result, ok, err, if◌then◌else◌,
}
use paper_collector_agent.ChatLog.Types.{Db, ChatError}
use paper_collector_agent.ChatLog.Store.{
  Transaction, pure, raise, lift, session, modify, require, found, ◌>>=◌, ◌>>◌,
}

-- What holds of the outcome: the postcondition if the operation returns, and nothing if it raises.
abbrev pub Post : {A : Type 0} → (A → Db → Type 0) → Result ChatError (A × Db) → Type 0
Post Q (ok (a, db)) = Q a db
Post Q (err e) = Unit

-- From every session that satisfies `P` the operation raises or returns with `Q`.
pub record Ensures {A : Type 0} (P : Db → Type 0) (m : Transaction A) (Q : A → Db → Type 0)
    : Type 0 where
  pub at : (db : Db) → P db → Post Q (m db)

module _ {A B : Type 0} where
  bind-Post :
      (Q : A → Db → Type 0) (f : A → Transaction B) (R : B → Db → Type 0)
      → ((a : A) → Ensures (Q a) (f a) R)
      → (r : Result ChatError (A × Db)) → Post Q r
      → Post R (elim r [ ok (a, db') ↦ f a db' | err e ↦ err e ])
  bind-Post Q f R next (ok (a, db)) h = (next a).at db h
  bind-Post Q f R next (err e) h = tt

  pub Ensures-bind :
      {P : Db → Type 0} (Q : A → Db → Type 0) {R : B → Db → Type 0} (m : Transaction A)
      (f : A → Transaction B)
      → Ensures P m Q
      → ((a : A) → Ensures (Q a) (f a) R)
      → Ensures P (m >>= f) R
  Ensures-bind Q {R} m f first next = record {
    at = λ db h. bind-Post Q f R next (m db) (first.at db h);
  }

module _ {A : Type 0} {P : Db → Type 0} where
  pub Ensures-pure :
      {Q : A → Db → Type 0} (a : A) → ((db : Db) → P db → Q a db) → Ensures P (pure a) Q
  Ensures-pure a h = record { at = h }

  pub Ensures-raise : {Q : A → Db → Type 0} (e : ChatError) → Ensures P (raise {A = A} e) Q
  Ensures-raise e = record { at = λ db h. tt }

  -- A pure call changes no row.
  pub Ensures-lift : (r : Result ChatError A) → Ensures P (lift r) (λ a db. P db)
  Ensures-lift (ok a) = record { at = λ db h. h }
  Ensures-lift (err e) = record { at = λ db h. tt }

  -- The same, where the rest may use what the call returned.
  pub Ensures-lift_eq : (r : Result ChatError A) → Ensures P (lift r) (λ a db. P db × (r ≡ ok a))
  Ensures-lift_eq (ok a) = record { at = λ db h. (h, refl) }
  Ensures-lift_eq (err e) = record { at = λ db h. tt }

  pub Ensures-found :
      (o : Option A) (e : ChatError) → Ensures P (found o e) (λ a db. P db × (o ≡ some a))
  Ensures-found none e = record { at = λ db h. tt }
  Ensures-found (some a) e = record { at = λ db h. (h, refl) }

  pub Ensures-if :
      {Q : A → Db → Type 0} (b : Bool) (m n : Transaction A)
      → (b ≡ true → Ensures P m Q)
      → (b ≡ false → Ensures P n Q)
      → Ensures P (if b then m else n) Q
  Ensures-if true m n hm hn = hm refl
  Ensures-if false m n hm hn = hn refl

-- A weaker postcondition.
Post-weaken :
    {A : Type 0} (Q R : A → Db → Type 0) (r : Result ChatError (A × Db))
    → ((a : A) (db : Db) → Q a db → R a db)
    → Post Q r
    → Post R r
Post-weaken Q R (ok (a, db)) f h = f a db h
Post-weaken Q R (err e) f h = tt

pub Ensures-weaken :
    {A : Type 0} {P : Db → Type 0} (Q : A → Db → Type 0) {R : A → Db → Type 0} (m : Transaction A)
    → Ensures P m Q
    → ((a : A) (db : Db) → Q a db → R a db)
    → Ensures P m R
Ensures-weaken Q {R} m h f = record { at = λ db p. Post-weaken Q R (m db) f (h.at db p) }

module _ {P : Db → Type 0} where
  pub Ensures-require :
      (b : Bool) (e : ChatError) → Ensures P (require b e) (λ _ db. P db × (b ≡ true))
  Ensures-require true e = record { at = λ db h. (h, refl) }
  Ensures-require false e = record { at = λ db h. tt }

  -- The rest of the block may use which session was read.
  pub Ensures-session : Ensures P session (λ seen db. P db × (seen ≡ db))
  Ensures-session = record { at = λ db h. (h, refl) }

  pub Ensures-modify :
      {Q : Db → Type 0} (f : Db → Db)
      → ((db : Db) → P db → Q (f db))
      → Ensures P (modify f) (λ _ db. Q db)
  Ensures-modify f h = record { at = h }

-- A pure call in front of the rest of the block.
pub Ensures-bind-lift :
    {A B : Type 0} {P : Db → Type 0} {Q : B → Db → Type 0} (r : Result ChatError A)
    (f : A → Transaction B)
    → ((a : A) → Ensures P (f a) Q)
    → Ensures P (lift r >>= f) Q
Ensures-bind-lift {P} r f next = Ensures-bind (λ _. P) (lift r) f (Ensures-lift r) next

-- A reading of the session in front of the rest of the block.
pub Ensures-bind-session :
    {B : Type 0} {P : Db → Type 0} {Q : B → Db → Type 0} (f : Db → Transaction B)
    → ((seen : Db) → Ensures (λ db. P db × (seen ≡ db)) (f seen) Q)
    → Ensures P (session >>= f) Q
Ensures-bind-session {P} f next =
    Ensures-bind (λ seen db. P db × (seen ≡ db)) session f Ensures-session next

-- A guard in front of the rest of the block, which may use that it held.
pub Ensures-bind-require :
    {B : Type 0} {P : Db → Type 0} {Q : B → Db → Type 0} (b : Bool) (e : ChatError)
    (n : Transaction B)
    → Ensures (λ db. P db × (b ≡ true)) n Q
    → Ensures P (require b e >> n) Q
Ensures-bind-require {P} b e n next =
    Ensures-bind (λ _ db. P db × (b ≡ true)) (require b e) (λ _. n) (Ensures-require b e)
      (λ _. next)

-- A stronger precondition.
pub Ensures-strengthen :
    {A : Type 0} (P : Db → Type 0) {P' : Db → Type 0} {Q : A → Db → Type 0} (m : Transaction A)
    → Ensures P m Q
    → ((db : Db) → P' db → P db)
    → Ensures P' m Q
Ensures-strengthen P m h f = record { at = λ db p. h.at db (f db p) }
