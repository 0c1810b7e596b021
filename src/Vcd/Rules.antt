-- ===== src/Vcd/Rules.antt =====
-- One rule for each way to build an action, by which it keeps to a plan.
use fleeting_plugin_vcd.Base.{
  ℕ, zero, suc, ◌≡◌, refl, sym, subst, ap, ◌∙◌, if◌then◌else◌, String, Bool, true, false, Option,
  none, some, List, [], ◌∷◌, ◌++◌, arith,
}
use fleeting_plugin_vcd.Vcd.{
  Request, Env, World, Result, ok, err, Action, pure, raise, see, continue, ◌>>=◌, raise_some,
  raise_if, note, times, note_times, succeeded_with, optional, attempt_once, attempt, ask_once, ask,
  wait_task, waits_task,
}
use fleeting_plugin_vcd.Vcd.Plans.{
  is_change, changes, changes-append, Step, is_optional, Fits, is_repeated, Follows, done, does,
  again, skips, stops, passes, Follows-append, Follows-Begins, Begins-append, Begins-nil, Since,
  Since-trans, Grows, returns, raises, Adds,
}
use mathlib.Core.List.{append-nil}

unchanged : (w : World) → Since w w []
unchanged w = record { made = sym (append-nil (changes w.log)); inflight = refl; cleanups = refl }

module _ {A : Type 0} where
  pub Adds-pure : (a : A) → Adds [] (pure a)
  unfolding pure
  Adds-pure a = record { at = λ w. returns (unchanged w) done }

  pub Adds-raise : {p : List Step} (e : String) → Adds p (raise {A = A} e)
  unfolding raise
  Adds-raise e = record { at = λ w. raises (unchanged w) stops }

  pub Adds-see : (f : List Request → A) → Adds [] (see f)
  unfolding see
  Adds-see f = record { at = λ w. returns (unchanged w) done }

  Grows-skip :
      {p : List Step} {s : Step} {v : World} {x : Result A × World}
      → is_optional s ≡ true
      → Grows p v x
      → Grows (s ∷ p) v x
  Grows-skip o (returns g f) = returns g (skips o f)
  Grows-skip o (raises g b) = raises g (passes o b)

  pub Adds-skip :
      {p : List Step} (s : Step) (m : Action A) → is_optional s ≡ true → Adds p m → Adds (s ∷ p) m
  Adds-skip s m o a = record { at = λ w. Grows-skip o (a.at w) }

  pub Adds-if :
      {p : List Step} (b : Bool) (m n : Action A)
      → Adds p m
      → Adds p n
      → Adds p (if b then m else n)
  Adds-if true m n am an = am
  Adds-if false m n am an = an

  Grows-succeeded_with :
      {v : World} {x : Result A × World} → Grows [] v x → Grows [] v (succeeded_with x)
  unfolding succeeded_with
  Grows-succeeded_with (returns g f) = returns g f
  Grows-succeeded_with {v} (raises {w = w} g b) =
      returns (subst (λ rs. Since v w rs) (Begins-nil b) g) done

  pub Adds-optional : (m : Action A) → Adds [] m → Adds [] (optional m)
  unfolding optional
  Adds-optional m a = record { at = λ w. Grows-succeeded_with (a.at w) }

Grows-more :
    {B : Type 0} {p q : List Step} {u v : World} {rs : List Request} {x : Result B × World}
    → Since u v rs
    → Follows p rs
    → Grows q v x
    → Grows (p ++ q) u x
Grows-more s f (returns t g) = returns (Since-trans s t) (Follows-append f g)
Grows-more s f (raises t b) = raises (Since-trans s t) (Follows-Begins f b)

module _ {A B : Type 0} where
  Grows-continue :
      {p q : List Step} {u : World} {x : Result A × World} (k : A → Action B)
      → Grows p u x
      → ((a : A) → Adds q (k a))
      → Grows (p ++ q) u (continue x.0 k x.1)
  unfolding continue
  Grows-continue k (returns {a = a} {w = w} s f) next = Grows-more s f ((next a).at w)
  Grows-continue {q = q} k (raises s b) next = raises s (Begins-append q b)

  pub Adds-bind :
      {p q : List Step} (m : Action A) (k : A → Action B)
      → Adds p m
      → ((a : A) → Adds q (k a))
      → Adds (p ++ q) (m >>= k)
  unfolding ◌>>=◌
  Adds-bind m k a next = record { at = λ w. Grows-continue k (a.at w) next }

  -- The same where the first action changes nothing.
  pub Adds-bind_read :
      {q : List Step} (m : Action A) (k : A → Action B)
      → Adds [] m
      → ((a : A) → Adds q (k a))
      → Adds q (m >>= k)
  Adds-bind_read m k a next = Adds-bind m k a next

module _ {A B : Type 0} where
  pub Adds-bind_pure :
      {q : List Step} (a : A) (k : A → Action B) → Adds q (k a) → Adds q (pure a >>= k)
  unfolding ◌>>=◌
  Adds-bind_pure a k next = record { at = λ w. next.at w }

  pub Adds-bind_raise : {q : List Step} (e : String) (k : A → Action B) → Adds q (raise e >>= k)
  unfolding ◌>>=◌
  Adds-bind_raise e k = record { at = λ w. raises (unchanged w) stops }

-- What an action returns, if it does, satisfies `P`.
abbrev pub Satisfies : {A : Type 0} → (A → Type 0) → Result A → Type 0
Satisfies P (ok a) = P a
Satisfies P (err e) = Unit

pub record Gives {A : Type 0} (P : A → Type 0) (m : Action A) : Type 0 where
  pub at : (w : World) → Satisfies P (m w).0

module _ {A : Type 0} {P : A → Type 0} where
  pub Gives-pure : (a : A) → P a → Gives P (pure a)
  unfolding pure
  Gives-pure a h = record { at = λ w. h }

  pub Gives-raise : (e : String) → Gives P (raise {A = A} e)
  unfolding raise
  Gives-raise e = record { at = λ w. tt }

  Satisfies-continue :
      {B : Type 0} {Q : B → Type 0} (k : B → Action A) (x : Result B × World)
      → Satisfies Q x.0
      → ((b : B) → Q b → Gives P (k b))
      → Satisfies P (continue x.0 k x.1).0
  unfolding continue
  Satisfies-continue k (ok b, w) h next = (next b h).at w
  Satisfies-continue k (err e, w) h next = tt

  pub Gives-bind :
      {B : Type 0} {Q : B → Type 0} (m : Action B) (k : B → Action A)
      → Gives Q m
      → ((b : B) → Q b → Gives P (k b))
      → Gives P (m >>= k)
  unfolding ◌>>=◌
  Gives-bind m k gives next = record { at = λ w. Satisfies-continue k (m w) (gives.at w) next }

Satisfies-any : {A : Type 0} (r : Result A) → Satisfies (λ _. Unit) r
Satisfies-any (ok a) = tt
Satisfies-any (err e) = tt

pub Gives-any : {A : Type 0} (m : Action A) → Gives (λ _. Unit) m
Gives-any m = record { at = λ w. Satisfies-any (m w).0 }

module _ {A B : Type 0} where
  Grows-given :
      {p q : List Step} {u : World} {P : A → Type 0} {x : Result A × World} (k : A → Action B)
      → Grows p u x
      → Satisfies P x.0
      → ((a : A) → P a → Adds q (k a))
      → Grows (p ++ q) u (continue x.0 k x.1)
  unfolding continue
  Grows-given k (returns {a = a} {w = w} s f) h next = Grows-more s f ((next a h).at w)
  Grows-given {q = q} k (raises s b) h next = raises s (Begins-append q b)

  pub Adds-bind_given :
      {p q : List Step} {P : A → Type 0} (m : Action A) (k : A → Action B)
      → Adds p m
      → Gives P m
      → ((a : A) → P a → Adds q (k a))
      → Adds (p ++ q) (m >>= k)
  unfolding ◌>>=◌
  Adds-bind_given m k a gives next = record { at = λ w. Grows-given k (a.at w) (gives.at w) next }

pub Adds-raise_some : (e : Option String) → Adds [] (raise_some e)
unfolding raise_some
Adds-raise_some none = record { at = λ w. returns (unchanged w) done }
Adds-raise_some (some e) = record { at = λ w. raises (unchanged w) stops }

pub Adds-raise_if : (b : Bool) (e : String) → Adds [] (raise_if b e)
unfolding raise_if
Adds-raise_if true e = record { at = λ w. raises (unchanged w) stops }
Adds-raise_if false e = record { at = λ w. returns (unchanged w) done }

pub Adds-note : (r : Request) → is_change r ≡ false → Adds [] (note r)
unfolding note
Adds-note r h = record {
  at = λ w.
      returns {rs = []}
        (record {
          made = changes-append w.log (r ∷ []) ∙ rw h refl;
          inflight = refl;
          cleanups = refl;
        })
        done;
}

note_change : (s : Step) (r : Request) → is_change r ≡ true → Fits s r → Adds (s ∷ []) (note r)
unfolding note
note_change s r h fit = record {
  at = λ w.
      returns {rs = r ∷ []}
        (record {
          made = changes-append w.log (r ∷ []) ∙ rw h refl;
          inflight = refl;
          cleanups = refl;
        })
        (does fit done);
}

changes-times_read : (n : ℕ) (r : Request) → is_change r ≡ false → changes (times n r) ≡ []
changes-times_read zero r h = refl
changes-times_read (suc n) r h = rw h (changes-times_read n r h)

changes-times : (n : ℕ) (r : Request) → is_change r ≡ true → changes (times n r) ≡ times n r
changes-times zero r h = refl
changes-times (suc n) r h = rw h (ap (λ l. r ∷ l) (changes-times n r h))

Follows-times :
    (s : Step) (r : Request) (n : ℕ)
    → is_repeated s ≡ true
    → Fits s r
    → Follows (s ∷ []) (times (suc n) r)
Follows-times s r zero h fit = does fit done
Follows-times s r (suc n) h fit = again h fit (Follows-times s r n h fit)

pub Adds-note_times : (n : ℕ) (r : Request) → is_change r ≡ false → Adds [] (note_times n r)
unfolding note_times
Adds-note_times n r h = record {
  at = λ w.
      returns {rs = []}
        (record {
          made =
              changes-append w.log (times n r)
              ∙ ap (λ l. changes w.log ++ l) (changes-times_read n r h);
          inflight = refl;
          cleanups = refl;
        })
        done;
}

note_times_change :
    (s : Step) (r : Request) (n : ℕ)
    → is_change r ≡ true
    → is_repeated s ≡ true
    → Fits s r
    → Adds (s ∷ []) (note_times (suc n) r)
unfolding note_times
note_times_change s r n h o fit = record {
  at = λ w.
      returns {rs = times (suc n) r}
        (record {
          made =
              changes-append w.log (times (suc n) r)
              ∙ ap (λ l. changes w.log ++ l) (changes-times (suc n) r h);
          inflight = refl;
          cleanups = refl;
        })
        (Follows-times s r n o fit);
}

module _ (env : Env) where
  pub Adds-attempt_once : (r : Request) → is_change r ≡ false → Adds [] (attempt_once env r)
  unfolding attempt_once
  Adds-attempt_once r h =
      Adds-bind_read _ _ (Adds-see _) (λ e. Adds-bind_read _ _ (Adds-note r h) (λ _. Adds-pure e))

  pub Adds-attempt : (r : Request) → is_change r ≡ false → Adds [] (attempt env r)
  unfolding attempt
  Adds-attempt r h = Adds-bind_read _ _ (Adds-see _) (λ e.
      Adds-bind_read _ _ (Adds-see _)
        (λ n. Adds-bind_read _ _ (Adds-note_times (suc n) r h) (λ _. Adds-pure e)))

  pub attempt_once_change :
      (s : Step) (r : Request) → is_change r ≡ true → Fits s r → Adds (s ∷ []) (attempt_once env r)
  unfolding attempt_once
  attempt_once_change s r h fit =
      Adds-bind_read _ _ (Adds-see _)
        (λ e. Adds-bind _ _ (note_change s r h fit) (λ _. Adds-pure e))

  pub attempt_change :
      (s : Step) (r : Request)
      → is_change r ≡ true
      → is_repeated s ≡ true
      → Fits s r
      → Adds (s ∷ []) (attempt env r)
  unfolding attempt
  attempt_change s r h o fit = Adds-bind_read _ _ (Adds-see _) (λ e.
      Adds-bind_read _ _ (Adds-see _)
        (λ n. Adds-bind _ _ (note_times_change s r n h o fit) (λ _. Adds-pure e)))

  pub Adds-ask_once : (r : Request) → is_change r ≡ false → Adds [] (ask_once env r)
  unfolding ask_once
  Adds-ask_once r h = Adds-bind_read _ _ (Adds-attempt_once r h) (λ e. Adds-raise_some e)

  pub Adds-ask : (r : Request) → is_change r ≡ false → Adds [] (ask env r)
  unfolding ask
  Adds-ask r h = Adds-bind_read _ _ (Adds-attempt r h) (λ e. Adds-raise_some e)

  pub ask_once_change :
      (s : Step) (r : Request) → is_change r ≡ true → Fits s r → Adds (s ∷ []) (ask_once env r)
  unfolding ask_once
  ask_once_change s r h fit = Adds-bind _ _ (attempt_once_change s r h fit) (λ e. Adds-raise_some e)

  pub ask_change :
      (s : Step) (r : Request)
      → is_change r ≡ true
      → is_repeated s ≡ true
      → Fits s r
      → Adds (s ∷ []) (ask env r)
  unfolding ask
  ask_change s r h o fit = Adds-bind _ _ (attempt_change s r h o fit) (λ e. Adds-raise_some e)

  pub Adds-wait_task : Adds [] (wait_task env)
  unfolding wait_task
  Adds-wait_task =
      Adds-bind_read _ _ (Adds-see _)
        (λ rounds. Adds-bind_read _ _ (Adds-note waits_task refl) (λ _. Adds-raise_some _))

pub ruleset reads_only = (
  Adds-pure, Adds-raise, Adds-see, Adds-if, Adds-optional, Adds-bind_read, Adds-raise_some,
  Adds-raise_if, Adds-note, Adds-note_times, Adds-attempt_once, Adds-attempt, Adds-ask_once,
  Adds-ask, Adds-wait_task, refl,
)
