-- ===== src/ActiveObject/Changes.antt =====
-- Changes of the states of some objects, one after the other, and what they do to active ones.
use litemq.Prelude.{
  ℕ, ◌≡◌, ◌≢◌, refl, sym, ap, ◌∙◌, subst, inl, inr, arith, Bool, true, false, if◌then◌else◌, ◌==◌,
  List, [], ◌∷◌, Bool-cases, ==_iff,
}
use litemq.ActiveObject.{ActiveState, not_active, active, deactivating, Objects}

abbrev pub mem : ℕ → List ℕ → Bool
mem id [] = false
mem id (c ∷ cs) = if id == c then true else mem id cs

abbrev pub lower : ActiveState → ActiveState
lower active = deactivating
lower deactivating = deactivating
lower not_active = not_active

abbrev pub rest : ActiveState → ActiveState
rest active = active
rest deactivating = not_active
rest not_active = not_active

-- The states of the objects in a list have changed by `f`, and no others.
pub record Went (f : ActiveState → ActiveState) (cs : List ℕ) (s t : Objects) : Type 0 where
  pub states : (id : ℕ) → t.states id ≡ (if mem id cs then f (s.states id) else s.states id)
  pub throws : t.throws ≡ s.throws

pub one_state :
    (f : ActiveState → ActiveState) (c : ℕ) (s : Objects) (state : ActiveState)
    → state ≡ f (s.states c)
    → (id : ℕ)
    → (if id == c then state else s.states id)
      ≡ (if mem id (c ∷ []) then f (s.states id) else s.states id)
one_state f c s state e id = elim (Bool-cases (id == c)) [
  | inl same ↦
      let eq : c ≡ id = sym ((==_iff id c).0 same) in rw same (e ∙ ap (λ i. f (s.states i)) eq)
  | inr other ↦ rw other
]

pub same_state :
    (f : ActiveState → ActiveState) (c : ℕ) (s : Objects)
    → s.states c ≡ f (s.states c)
    → (id : ℕ) → s.states id ≡ (if mem id (c ∷ []) then f (s.states id) else s.states id)
same_state f c s e id = elim (Bool-cases (id == c)) [
  | inl same ↦
      let eq : c ≡ id = sym ((==_iff id c).0 same) in
      rw same (subst (λ i. s.states i ≡ f (s.states i)) eq e)
  | inr other ↦ rw other
]

pub merge :
    (f : ActiveState → ActiveState) (p q : Bool) (x y z : ActiveState)
    → ((state : ActiveState) → f (f state) ≡ f state)
    → y ≡ (if (if p then true else false) then f x else x)
    → z ≡ (if q then f y else y)
    → z ≡ (if (if p then true else q) then f x else x)
merge f true true x y z idem a b = b ∙ ap f a ∙ idem x
merge f true false x y z idem a b = b ∙ a
merge f false true x y z idem a b = b ∙ ap f a
merge f false false x y z idem a b = b ∙ a

-- A change that does nothing the second time goes through a list of objects.
pub Went-cons :
    (f : ActiveState → ActiveState) (c : ℕ) (cs : List ℕ) (s t u : Objects)
    → ((state : ActiveState) → f (f state) ≡ f state)
    → Went f (c ∷ []) s t
    → Went f cs t u
    → Went f (c ∷ cs) s u
Went-cons f c cs s t u idem a b = record { states = states; throws = b.throws ∙ a.throws }
  where
    states : (id : ℕ) → u.states id ≡ (if mem id (c ∷ cs) then f (s.states id) else s.states id)
    states id =
        merge f (id == c) (mem id cs) (s.states id) (t.states id) (u.states id) idem (a.states id)
          (b.states id)

pub lower_twice : (state : ActiveState) → lower (lower state) ≡ lower state
lower_twice active = refl
lower_twice deactivating = refl
lower_twice not_active = refl

pub rest_twice : (state : ActiveState) → rest (rest state) ≡ rest state
rest_twice active = refl
rest_twice deactivating = refl
rest_twice not_active = refl

pub rest-lower : (state : ActiveState) → rest (lower state) ≡ not_active
rest-lower active = refl
rest-lower deactivating = refl
rest-lower not_active = refl

-- a change of each object, and then another
pub Went-then :
    (f g : ActiveState → ActiveState) (cs : List ℕ) (s t u : Objects)
    → Went f cs s t
    → Went g cs t u
    → Went (λ state. g (f state)) cs s u
Went-then f g cs s t u a b = record { states = states; throws = b.throws ∙ a.throws }
  where
    both :
        (p : Bool) (x y z : ActiveState)
        → y ≡ (if p then f x else x)
        → z ≡ (if p then g y else y)
        → z ≡ (if p then g (f x) else x)
    both true x y z h k = k ∙ ap g h
    both false x y z h k = k ∙ h

    states : (id : ℕ) → u.states id ≡ (if mem id cs then g (f (s.states id)) else s.states id)
    states id =
        both (mem id cs) (s.states id) (t.states id) (u.states id) (a.states id) (b.states id)

pub Went-change :
    (f g : ActiveState → ActiveState) (cs : List ℕ) (s t : Objects)
    → ((state : ActiveState) → f state ≡ g state)
    → Went f cs s t
    → Went g cs s t
Went-change f g cs s t same a = record {
  states = λ id. a.states id ∙ ap (λ x. if mem id cs then x else s.states id) (same (s.states id));
  throws = a.throws;
}

-- what one round does to an object, by whether it waits
abbrev pub lowered : Bool → ActiveState → ActiveState
lowered synchronous state = if synchronous then not_active else lower state

pub lowered_twice :
    (synchronous : Bool) (state : ActiveState)
    → lowered synchronous (lowered synchronous state) ≡ lowered synchronous state
lowered_twice true state = refl
lowered_twice false state = lower_twice state

pub lower_not_active : (state : ActiveState) → lower state ≢ active
lower_not_active active h = ground (arith, h)
lower_not_active deactivating h = ground (arith, h)
lower_not_active not_active h = ground (arith, h)

pub at_head :
    (f : ActiveState → ActiveState) (c : ℕ) (s t : Objects)
    → Went f (c ∷ []) s t
    → t.states c ≡ f (s.states c)
at_head f c s t a =
    let same : (c == c) ≡ true = ground arith in
    a.states c ∙ ap (λ p. if (if p then true else false) then f (s.states c) else s.states c) same

-- none of the objects in a list is active
abbrev pub NoneActive : List ℕ → Objects → Type 0
NoneActive cs s = (id : ℕ) → mem id cs ≡ true → s.states id ≢ active

pub rest_not_active : (state : ActiveState) → state ≢ active → rest state ≢ active
rest_not_active active h k = h refl
rest_not_active deactivating h k = ground (arith, k)
rest_not_active not_active h k = ground (arith, k)

pub NoneActive-tail :
    (c : ℕ) (cs : List ℕ) (s t : Objects)
    → NoneActive (c ∷ cs) s
    → Went rest (c ∷ []) s t
    → NoneActive cs t
NoneActive-tail c cs s t h went id k e =
    let at : (p : Bool)
        → (id == c) ≡ p
        → t.states id ≡ (if p then rest (s.states id) else s.states id) =
      λ p same.
        went.states id
        ∙ ap (λ p. if (if p then true else false) then rest (s.states id) else s.states id) same
        ∙ flat p (rest (s.states id)) (s.states id) in
    elim (Bool-cases (id == c)) [
      | inl same ↦
          rest_not_active (s.states id) (h id (ap (λ p. if p then true else mem id cs) same))
            (sym (at true same) ∙ e)
      | inr other ↦
          h id (ap (λ p. if p then true else mem id cs) other ∙ k) (sym (at false other) ∙ e)
    ]
  where
    flat :
        (p : Bool) (x y : ActiveState)
        → (if (if p then true else false) then x else y) ≡ (if p then x else y)
    flat true x y = refl
    flat false x y = refl

pub lowered_not_active :
    (synchronous : Bool) (state : ActiveState) → lowered synchronous state ≢ active
lowered_not_active true state h = ground (arith, h)
lowered_not_active false state h = lower_not_active state h

pub NoneActive-lowered :
    (synchronous : Bool) (cs : List ℕ) (s t : Objects)
    → Went (lowered synchronous) cs s t
    → NoneActive cs t
NoneActive-lowered synchronous cs s t went id k e = lowered_not_active synchronous (s.states id) (
    sym (went.states id ∙ ap (λ p. if p then lowered synchronous (s.states id) else s.states id) k)
    ∙ e)
