-- ===== src/Execute/Success.antt =====
-- When a run may report success: nothing that was asked of the world has failed.
pub mod Filesystem
pub mod Resize
pub mod Apply
use gparted_android.Prelude.{
  ◌≡◌, refl, Bool, true, false, Option, none, some, Bool-cases, inl, inr, List, [], ◌∷◌, arith,
}
use gparted_android.Execute.{
  World, Step, Answer, succeeds, fails, fails_after_change, Event, did, reported, copied_only,
  History, Run, pure, ◌>>=◌, ◌&&&◌, when, branch, is_ok, perform, Report, reject,
}

-- Every step of the history has succeeded, and no programming error was reported.
abbrev pub Clean : History → Type 0
Clean [] = Unit
Clean (did s succeeds ∷ h) = Clean h
Clean (did s fails ∷ h) = ⊥
Clean (did s fails_after_change ∷ h) = ⊥
Clean (reported r ∷ h) = ⊥
Clean (copied_only p q n ∷ h) = Clean h

-- Results that mean success.
abbrev pub is_true : Bool → Bool
is_true b = b

abbrev pub is_some : {A : Type 0} → Option A → Bool
is_some none = false
is_some (some a) = true

abbrev pub is_done : Option Bool → Bool
is_done none = false
is_done (some b) = b

-- A run that reports success has made only steps that succeeded.
pub record Honest {A : Type 0} (ok : A → Bool) (m : Run A) : Type 0 where
  pub holds : (h : History) → Clean h → ok (m h).0 ≡ true → Clean (m h).1

-- A run that never reports success.
pub record Fails {A : Type 0} (ok : A → Bool) (m : Run A) : Type 0 where
  pub holds : (h : History) → ok (m h).0 ≡ false

pub pure-Honest : {A : Type 0} {ok : A → Bool} (a : A) → Honest ok (pure a)
pure-Honest a = record { holds = λ h c e. c }

pub pure-Fails : {A : Type 0} {ok : A → Bool} (a : A) → ok a ≡ false → Fails ok (pure a)
pure-Fails a e = record { holds = λ h. e }

pub Fails-Honest : {A : Type 0} {ok : A → Bool} {m : Run A} → Fails ok m → Honest ok m
Fails-Honest f = record { holds = λ h c e. cc (f.holds h, e) }

pub bind-Fails :
    {A B : Type 0} {ok : B → Bool} (m : Run A) {f : A → Run B}
    → ((a : A) → Fails ok (f a))
    → Fails ok (m >>= f)
bind-Fails m u = record { holds = λ h. (u (m h).0).holds (m h).1 }

pub branch-Fails :
    {A : Type 0} {ok : A → Bool} (b : Bool) {m n : Run A}
    → Fails ok m
    → Fails ok n
    → Fails ok (branch b m n)
branch-Fails true t u = t
branch-Fails false t u = u

pub branch-Honest :
    {A : Type 0} {ok : A → Bool} (b : Bool) {m n : Run A}
    → Honest ok m
    → Honest ok n
    → Honest ok (branch b m n)
branch-Honest true t u = t
branch-Honest false t u = u

pub reject-Honest : (r : Report) → Honest is_true (reject r)
reject-Honest r = Fails-Honest (record { holds = λ h. refl })

-- By the result of the first run.
pub bind-Honest :
    {A B : Type 0} {ok : A → Bool} {ok' : B → Bool} {m : Run A} {f : A → Run B}
    → Honest ok m
    → ((a : A) → ok a ≡ true → Honest ok' (f a))
    → ((a : A) → ok a ≡ false → Fails ok' (f a))
    → Honest ok' (m >>= f)
bind-Honest {ok = ok} {m = m} t u v = record {
  holds = λ h c e. elim (Bool-cases (ok (m h).0)) [
    | inl k ↦ (u (m h).0 k).holds (m h).1 (t.holds h c k) e
    | inr k ↦ cc ((v (m h).0 k).holds (m h).1, e)
  ];
}

pub then-Honest :
    {B : Type 0} {ok : B → Bool} {m : Run Bool} (f : Bool → Run B)
    → Honest is_true m
    → Honest ok (f true)
    → Fails ok (f false)
    → Honest ok (m >>= f)
then-Honest {ok = ok} f t u v = bind-Honest t on_true on_false
  where
    on_true : (a : Bool) → a ≡ true → Honest ok (f a)
    on_true true e = u
    on_true false e = cc e

    on_false : (a : Bool) → a ≡ false → Fails ok (f a)
    on_false true e = cc e
    on_false false e = v

pub some-Honest :
    {A B : Type 0} {ok : B → Bool} {m : Run (Option A)} (f : Option A → Run B)
    → Honest is_some m
    → ((a : A) → Honest ok (f (some a)))
    → Fails ok (f none)
    → Honest ok (m >>= f)
some-Honest {A = A} {ok = ok} f t u v = bind-Honest t on_some on_none
  where
    on_some : (o : Option A) → is_some o ≡ true → Honest ok (f o)
    on_some none e = cc e
    on_some (some a) e = u a

    on_none : (o : Option A) → is_some o ≡ false → Fails ok (f o)
    on_none none e = v
    on_none (some a) e = cc e

pub and-Honest : {m n : Run Bool} → Honest is_true m → Honest is_true n → Honest is_true (m &&& n)
and-Honest {n = n} t u = then-Honest (λ b. when b n) t u (pure-Fails false refl)

pub else-Honest :
    {B : Type 0} {ok : B → Bool} {m : Run Bool} {n o : Run B}
    → Honest is_true m
    → Honest ok n
    → Fails ok o
    → Honest ok (m >>= λ b. branch b n o)
else-Honest {n = n} {o = o} t u v = then-Honest (λ b. branch b n o) t u v

-- Reading from the world what it says at this moment.
pub read-Honest :
    {A B : Type 0} {ok : B → Bool} (g : History → A) {f : A → Run B}
    → ((a : A) → Honest ok (f a))
    → Honest ok ((λ h. (g h, h)) >>= f)
read-Honest g u = record { holds = λ h c e. (u (g h)).holds h c e }

pub perform-Honest : (w : World) (s : Step) → Honest is_true (perform w s)
unfolding perform
perform-Honest w s = record { holds = λ h c e. by_answer (w.answer h s) h c e }
  where
    by_answer : (a : Answer) (h : History) → Clean h → is_ok a ≡ true → Clean (did s a ∷ h)
    by_answer succeeds h c e = c
    by_answer fails h c e = cc e
    by_answer fails_after_change h c e = cc e
