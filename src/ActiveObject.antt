-- ===== src/ActiveObject.antt =====
-- gears/ActiveObject.cpp, SimpleActiveObject, and gears/CompositeActiveObject.hpp: objects that are
-- activated, deactivated and waited for, and the composite of such objects. An object has its address;
-- what its virtual functions do besides being called is left open: `throws` tells of the calls made so
-- far, the last one included, whether that one throws. An operation gives `false` where it throws, and
-- `none` where it waits for an active object, which only another thread could end.
pub mod Threads
pub mod Stopping
pub mod Calls
pub mod Order
pub mod Changes
pub mod Activation
mod Examples
use litemq.Prelude.{
  ℕ, Bool, true, false, ◌&&◌, if◌then◌else◌, ◌==◌, Option, none, some, List, [], ◌∷◌, ◌++◌,
}

pub data ActiveState : Type 0 where
  not_active : ActiveState
  active : ActiveState
  deactivating : ActiveState

-- the virtual functions `activate_object_`, `deactivate_object_` and `wait_object_`
pub data Hook : Type 0 where
  activate_hook : Hook
  deactivate_hook : Hook
  wait_hook : Hook

pub record Objects : Type 0 where
  pub states : ℕ → ActiveState
  pub calls : List (ℕ × Hook)
  pub throws : List (ℕ × Hook) → Bool

abbrev pub with_state : ℕ → ActiveState → Objects → Objects
with_state c state s = record s { states = λ id. if id == c then state else s.states id }

abbrev pub called : ℕ → Hook → Objects → Objects
called c hook s = record s { calls = s.calls ++ ((c, hook) ∷ []) }

-- `SimpleActiveObject::activate_object`, by the state of the object
unfoldable pub activate_at : ActiveState → ℕ → Objects → Bool × Objects
activate_at not_active c s =
    let after = called c activate_hook s in
    if s.throws after.calls then (false, after) else (true, with_state c active after)
activate_at _ c s = (false, s)

unfoldable pub activate : ℕ → Objects → Bool × Objects
unfolding activate_at
activate c s = activate_at (s.states c) c s

-- `SimpleActiveObject::deactivate_object`
unfoldable pub deactivate_at : ActiveState → ℕ → Objects → Bool × Objects
deactivate_at active c s =
    let after = called c deactivate_hook (with_state c deactivating s) in
    if s.throws after.calls then (false, with_state c active after) else (true, after)
deactivate_at _ c s = (true, s)

unfoldable pub deactivate : ℕ → Objects → Bool × Objects
unfolding deactivate_at
deactivate c s = deactivate_at (s.states c) c s

-- `SimpleActiveObject::wait_object`
unfoldable pub wait_at : ActiveState → ℕ → Objects → Option (Bool × Objects)
wait_at active c s = none
wait_at deactivating c s =
    let after = called c wait_hook s in
    if s.throws after.calls then some (false, after) else some (true, with_state c not_active after)
wait_at not_active c s =
    let after = called c wait_hook s in
    if s.throws after.calls then some (false, after) else some (true, after)

unfoldable pub wait : ℕ → Objects → Option (Bool × Objects)
unfolding wait_at
wait c s = wait_at (s.states c) c s

-- What a loop over objects goes on with. It reaches all of them, and throws at the end if one threw.
unfoldable pub and_also : Bool → Option (Bool × Objects) → Option (Bool × Objects)
and_also ok none = none
and_also ok (some (rest, s)) = some (ok && rest, s)

unfoldable pub then_more :
    (Objects → Option (Bool × Objects)) → Option (Bool × Objects) → Option (Bool × Objects)
unfolding and_also
then_more more none = none
then_more more (some (ok, s)) = and_also ok (more s)

-- `wait_for_some_objects_`
unfoldable pub wait_for_some : List ℕ → Objects → Option (Bool × Objects)
unfolding then_more wait
wait_for_some [] s = some (true, s)
wait_for_some (c ∷ cs) s = then_more (wait_for_some cs) (wait c s)

-- `deactivate_object_` from an object backwards: the objects are given in the reverse order
unfoldable pub deactivate_one : Bool → ℕ → Objects → Option (Bool × Objects)
unfolding deactivate wait
deactivate_one synchronous c s =
    let (ok, after) = deactivate c s in if ok && synchronous then wait c after else some (ok, after)

unfoldable pub deactivate_each : Bool → List ℕ → Objects → Option (Bool × Objects)
unfolding then_more deactivate_one
deactivate_each synchronous [] s = some (true, s)
deactivate_each synchronous (c ∷ cs) s =
    then_more (deactivate_each synchronous cs) (deactivate_one synchronous c s)

-- The loop of `activate_object_`: whether it reached the end, the objects that it activated, the
-- last one first, and the state.
unfoldable pub activate_each : List ℕ → List ℕ → Objects → Bool × List ℕ × Objects
unfolding activate
activate_each done [] s = (true, done, s)
activate_each done (c ∷ cs) s =
    let (ok, after) = activate c s in
    let more = activate_each (c ∷ done) cs after in if ok then more else (false, done, after)

pub record CompositeActiveObject : Type 0 where
  pub state : ActiveState
  pub synchronous : Bool
  pub child_objects : List ℕ
  pub objects : Objects

abbrev pub reversed : List ℕ → List ℕ
reversed [] = []
reversed (c ∷ cs) = reversed cs ++ (c ∷ [])

-- The objects are deactivated, and waited for unless that threw.
unfoldable pub wait_if : List ℕ → Option (Bool × Objects) → Option (Bool × Objects)
unfolding wait_for_some
wait_if cs none = none
wait_if cs (some (true, s)) = wait_for_some cs s
wait_if cs (some (false, s)) = some (false, s)

unfoldable pub stop_each : Bool → List ℕ → Objects → Option (Bool × Objects)
unfolding deactivate_each wait_if
stop_each synchronous cs s = wait_if cs (deactivate_each synchronous cs s)

-- `CompositeActiveObjectBase::activate_object_`: where a child throws, those activated before it are
-- stopped, and the exception goes on.
unfoldable pub with_failure : Option (Bool × Objects) → Option (Bool × Objects)
with_failure none = none
with_failure (some (_, s)) = some (false, s)

unfoldable pub activate_children : Bool → Bool × List ℕ × Objects → Option (Bool × Objects)
unfolding stop_each with_failure
activate_children synchronous (true, done, s) = some (true, s)
activate_children synchronous (false, done, s) = with_failure (stop_each synchronous done s)

abbrev pub with_objects :
    CompositeActiveObject
    → (Bool → ActiveState)
    → Option (Bool × Objects)
    → Option (Bool × CompositeActiveObject)
with_objects c state none = none
with_objects c state (some (ok, s)) = some (ok, record c { state = state ok; objects = s })

-- `activate_object`, `deactivate_object` and `wait_object` of the composite, by its state
unfoldable pub activate_object : CompositeActiveObject → Option (Bool × CompositeActiveObject)
unfolding activate_each activate_children
activate_object c =
    let run = activate_children c.synchronous (activate_each [] c.child_objects c.objects) in
    elim c.state [
      | not_active ↦ with_objects c (λ ok. if ok then active else not_active) run
      | _ ↦ some (false, c)
    ]

unfoldable pub deactivate_object : CompositeActiveObject → Option (Bool × CompositeActiveObject)
unfolding deactivate_each
deactivate_object c =
    let run = deactivate_each c.synchronous (reversed c.child_objects) c.objects in
    elim c.state [
      | active ↦ with_objects c (λ ok. if ok then deactivating else active) run
      | _ ↦ some (true, c)
    ]

unfoldable pub wait_object : CompositeActiveObject → Option (Bool × CompositeActiveObject)
unfolding wait_for_some
wait_object c =
    let run = wait_for_some (reversed c.child_objects) c.objects in
    elim c.state [
      | active ↦ none
      | deactivating ↦ with_objects c (λ ok. if ok then not_active else deactivating) run
      | not_active ↦ with_objects c (λ ok. not_active) run
    ]

-- `clear_children`: where it throws, the children stay.
unfoldable pub clear_stopped :
    CompositeActiveObject → Option (Bool × Objects) → Option (Bool × CompositeActiveObject)
clear_stopped c none = none
clear_stopped c (some (true, s)) =
    some (true, record c { state = not_active; child_objects = []; objects = s })
clear_stopped c (some (false, s)) = some (false, record c { objects = s })

unfoldable pub clear_children : CompositeActiveObject → Option (Bool × CompositeActiveObject)
unfolding stop_each clear_stopped
clear_children c =
    let run = stop_each c.synchronous (reversed c.child_objects) c.objects in
    elim c.state [
      | not_active ↦ some (true, record c { child_objects = [] })
      | _ ↦ clear_stopped c run
    ]

-- `add_child_object`: the child is brought into the state of the composite first.
unfoldable pub insert_child :
    Bool
    → ℕ
    → CompositeActiveObject
    → Option (Bool × Objects)
    → Option (Bool × CompositeActiveObject)
insert_child add_to_head child c none = none
insert_child add_to_head child c (some (false, s)) = some (false, record c { objects = s })
insert_child add_to_head child c (some (true, s)) = some (
  true,
  record c {
    child_objects =
        if add_to_head then child ∷ c.child_objects else c.child_objects ++ (child ∷ []);
    objects = s;
  },
)

-- `active()`
unfoldable pub is_active : ActiveState → Bool
is_active active = true
is_active _ = false

unfoldable pub add_child_object :
    ℕ → Bool → CompositeActiveObject → Option (Bool × CompositeActiveObject)
unfolding activate stop_each insert_child is_active
add_child_object child add_to_head c =
    let child_active = is_active (c.objects.states child) in
    insert_child add_to_head child c (
      if is_active c.state
      then if child_active then some (true, c.objects) else some (activate child c.objects)
      else if child_active
      then stop_each false (child ∷ []) c.objects
      else some (true, c.objects))
