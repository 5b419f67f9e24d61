-- ===== src/Store/Sql/Triple.antt =====
-- Pre- and postconditions of the store's actions, with a rule for each way to build one.
use mathlib.Core.Option.{some-injective}
use metawsm.Base.{◌≡◌, refl, subst, Bool, true, false, Option, none, some, if◌then◌else◌}
use metawsm.Store.Schema.{Tables}
use metawsm.Store.Sql.{
  Error, Result, ok, err, World, M, pure, raise, continue, ◌>>=◌, exec, query, settle, answer,
  ignore, handle, handle_result,
}

abbrev pub Ensures :
    {A : Type 0} → (A → Tables → Type 0) → (Tables → Type 0) → Result A → Tables → Type 0
Ensures Q E (ok a) t = Q a t
Ensures Q E (err e) t = E t

-- From tables with `P`, a result leaves tables with `Q`, and an error tables with `E`.
pub record Triple {A : Type 0} (P : Tables → Type 0) (m : M A) (Q : A → Tables → Type 0)
    (E : Tables → Type 0) : Type 0 where
  pub at : (w : World) → P w.tables → Ensures Q E (m w).0 (m w).1.tables

-- An invariant, kept whether the action returns or fails.
abbrev pub Keeps : {A : Type 0} → (Tables → Type 0) → M A → Type 0
Keeps P m = Triple P m (λ _. P) P

settle-Ensures :
    (Q E : Tables → Type 0) (b : Bool) (o : Option Tables) (w : World)
    → ((t : Tables) → o ≡ some t → Q t)
    → E w.tables
    → Ensures (λ _. Q) E (settle b o w).0 (settle b o w).1.tables
settle-Ensures Q E true (some t) w q e = q t refl
settle-Ensures Q E true none w q e = e
settle-Ensures Q E false o w q e = e

answer-Ensures :
    {A : Type 0} (Q : A → Tables → Type 0) (E : Tables → Type 0) (b : Bool) (a : A) (w : World)
    → Q a w.tables
    → E w.tables
    → Ensures Q E (answer b a w).0 (answer b a w).1.tables
answer-Ensures Q E true a w q e = q
answer-Ensures Q E false a w q e = e

continue-Ensures :
    {A B : Type 0} (R : A → Tables → Type 0) (Q : B → Tables → Type 0) (E : Tables → Type 0)
    (r : Result A) (f : A → M B) (w : World)
    → Ensures R E r w.tables
    → ((a : A) → Triple (R a) (f a) Q E)
    → Ensures Q E (continue r f w).0 (continue r f w).1.tables
continue-Ensures R Q E (ok a) f w h k = (k a).at w h
continue-Ensures R Q E (err e) f w h k = h

module _ {P E : Tables → Type 0} where
  pub Triple-exec :
      (script : Tables → Option Tables) (Q : Tables → Type 0)
      → ((t t' : Tables) → P t → script t ≡ some t' → Q t')
      → ((t : Tables) → P t → E t)
      → Triple P (exec script) (λ _. Q) E
  unfolding exec
  Triple-exec script Q step fail = record {
    at = λ w h.
        settle-Ensures Q E _ (script w.tables) _ (λ t e. step w.tables t h e) (fail w.tables h);
  }

  pub Triple-query :
      {A : Type 0} (select : Tables → A)
      → ((t : Tables) → P t → E t)
      → Triple P (query select) (λ a t. P t × (a ≡ select t)) E
  unfolding query
  Triple-query select fail = record {
    at = λ w h. answer-Ensures (λ a t. P t × (a ≡ select t)) E _ _ _ (h, refl) (fail w.tables h);
  }

  pub Triple-pure :
      {A : Type 0} (a : A) (Q : A → Tables → Type 0)
      → ((t : Tables) → P t → Q a t)
      → Triple P (pure a) Q E
  unfolding pure
  Triple-pure a Q h = record { at = λ w p. h w.tables p }

  pub Triple-raise :
      {A : Type 0} (e : Error) (Q : A → Tables → Type 0)
      → ((t : Tables) → P t → E t)
      → Triple P (raise e) Q E
  unfolding raise
  Triple-raise e Q h = record { at = λ w p. h w.tables p }

  pub Triple-bind :
      {A B : Type 0} (m : M A) (f : A → M B) (R : A → Tables → Type 0) (Q : B → Tables → Type 0)
      → Triple P m R E
      → ((a : A) → Triple (R a) (f a) Q E)
      → Triple P (m >>= f) Q E
  unfolding ◌>>=◌
  Triple-bind m f R Q first rest = record {
    at = λ w h. continue-Ensures R Q E (m w).0 f (m w).1 (first.at w h) rest;
  }

  pub Triple-weaken :
      {A : Type 0} (m : M A) (P' : Tables → Type 0) (Q Q' : A → Tables → Type 0)
      → Triple P' m Q' E
      → ((t : Tables) → P t → P' t)
      → ((a : A) (t : Tables) → Q' a t → Q a t)
      → Triple P m Q E
  Triple-weaken {A} m P' Q Q' h pre post = record {
    at = λ w p. weaken_post (m w).0 (m w).1.tables (h.at w (pre w.tables p));
  }
    where
      weaken_post : (r : Result A) (t : Tables) → Ensures Q' E r t → Ensures Q E r t
      weaken_post (ok a) t q = post a t q
      weaken_post (err e) t q = q

  pub Triple-if :
      {A : Type 0} (b : Bool) (m n : M A) (Q : A → Tables → Type 0)
      → (b ≡ true → Triple P m Q E)
      → (b ≡ false → Triple P n Q E)
      → Triple P (if b then m else n) Q E
  Triple-if true m n Q yes_case no_case = yes_case refl
  Triple-if false m n Q yes_case no_case = no_case refl

-- What an error leaves may be said less exactly.
pub Triple-error :
    {P : Tables → Type 0} {A : Type 0} {m : M A} {Q : A → Tables → Type 0} (E E' : Tables → Type 0)
    → Triple P m Q E
    → ((t : Tables) → E t → E' t)
    → Triple P m Q E'
Triple-error {A} {m = m} {Q = Q} E E' h weaker = record {
  at = λ w p. weaken_error (m w).0 (m w).1.tables (h.at w p);
}
  where
    weaken_error : (r : Result A) (t : Tables) → Ensures Q E r t → Ensures Q E' r t
    weaken_error (ok a) t q = q
    weaken_error (err e) t q = weaker t q

Ensures_either :
    {A : Type 0} (P : Tables → Type 0) (r : Result A) (t : Tables) → Ensures (λ _. P) P r t → P t
Ensures_either P (ok a) t h = h
Ensures_either P (err e) t h = h

-- What holds both after a result and after an error holds of the tables in any case.
pub Triple-either :
    {A : Type 0} {P' P : Tables → Type 0} (m : M A) (w : World)
    → Triple P' m (λ _. P) P
    → P' w.tables
    → P (m w).1.tables
Triple-either {P} m w h p = Ensures_either P (m w).0 (m w).1.tables (h.at w p)

handled :
    {A : Type 0} {Q : A → Tables → Type 0} {E : Tables → Type 0} (r : Result A) (w : World)
    (h : Error → M A)
    → Ensures Q E r w.tables
    → ((e : Error) → Triple E (h e) Q E)
    → Ensures Q E (handle_result h (r, w)).0 (handle_result h (r, w)).1.tables
handled (ok a) w h p k = p
handled (err e) w h p k = (k e).at w p

pub Triple-handle :
    {A : Type 0} {P E : Tables → Type 0} {Q : A → Tables → Type 0} (m : M A) (h : Error → M A)
    → Triple P m Q E
    → ((e : Error) → Triple E (h e) Q E)
    → Triple P (handle m h) Q E
unfolding handle
Triple-handle m h t k = record { at = λ w p. handled (m w).0 (m w).1 h (t.at w p) k }

-- `_ = m`
pub Triple-ignored :
    {A : Type 0} {P Q : Tables → Type 0} (m : M A)
    → Triple P m (λ _. Q) Q
    → Triple P (ignore m) (λ _. Q) Q
unfolding ignore
Triple-ignored {P = P} {Q} m h = record { at = λ w p. Triple-either m w h p }

module _ {P : Tables → Type 0} where
  pub Keeps-pure : {A : Type 0} (a : A) → Keeps P (pure a)
  Keeps-pure a = Triple-pure a (λ _. P) (λ t p. p)

  pub Keeps-raise : {A : Type 0} (e : Error) → Keeps P (raise {A = A} e)
  Keeps-raise e = Triple-raise e (λ _. P) (λ t p. p)

  pub Keeps-query : {A : Type 0} (select : Tables → A) → Keeps P (query select)
  Keeps-query select =
      Triple-weaken (query select) P (λ _. P) (λ a t. P t × (a ≡ select t))
        (Triple-query select (λ t p. p)) (λ t p. p) (λ a t q. q.0)

  pub Keeps-exec :
      (script : Tables → Option Tables)
      → ((t t' : Tables) → P t → script t ≡ some t' → P t')
      → Keeps P (exec script)
  Keeps-exec script step = Triple-exec script P step (λ t p. p)

  pub Keeps-update :
      (f : Tables → Tables) → ((t : Tables) → P t → P (f t)) → Keeps P (exec (λ t. some (f t)))
  Keeps-update f step =
      Keeps-exec (λ t. some (f t)) (λ t t' p e. subst P (some-injective (f t) t' e) (step t p))

  pub Keeps-bind :
      {A B : Type 0} (m : M A) (f : A → M B)
      → Keeps P m
      → ((a : A) → Keeps P (f a))
      → Keeps P (m >>= f)
  Keeps-bind m f = Triple-bind m f (λ _. P) (λ _. P)

  pub Keeps-if :
      {A : Type 0} (b : Bool) (m n : M A) → Keeps P m → Keeps P n → Keeps P (if b then m else n)
  Keeps-if true m n yes_case no_case = yes_case
  Keeps-if false m n yes_case no_case = no_case

pub ruleset keeps_rules =
    (Keeps-pure, Keeps-raise, Keeps-query, Keeps-exec, Keeps-update, Keeps-bind, Keeps-if)
