-- ===== src/Watchlist/Classify.antt =====
-- What the two classification loops leave in each of the four sets.
use scrob.Prelude.{
  String, ◌≡◌, refl, Bool, not, ◌&&◌, ◌||◌, List, [], ◌∷◌, arith, ◌==◌, string_eq, contains,
  contains-add, contains-filter, difference,
}
use scrob.Watchlist.{
  Actions, no_actions, local_only, remote_only, local_loop, remote_loop, classified,
}

module _ (pull push : Bool) (b : List String) (s : Actions) (key a : String) where
  remove_local-step :
      contains (local_only pull push b s key).remove_local a
      ≡ (contains s.remove_local a || (a == key && (pull && (contains b a || not push))))
  unfolding local_only
  remove_local-step = ground (arith, string_eq.same_iff a key, contains-add key s.remove_local a)

  push_add-step :
      contains (local_only pull push b s key).push_add a
      ≡ (contains s.push_add a || (a == key && (push && not (contains b a && pull))))
  unfolding local_only
  push_add-step = ground (arith, string_eq.same_iff a key, contains-add key s.push_add a)

  push_remove-step :
      contains (remote_only pull push b s key).push_remove a
      ≡ (contains s.push_remove a || (a == key && (push && contains b a)))
  unfolding remote_only
  push_remove-step = ground (arith, string_eq.same_iff a key, contains-add key s.push_remove a)

  add_local-step :
      contains (remote_only pull push b s key).add_local a
      ≡ (contains s.add_local a || (a == key && (pull && not (contains b a && push))))
  unfolding remote_only
  add_local-step = ground (arith, string_eq.same_iff a key, contains-add key s.add_local a)

  add_local-local_only : (local_only pull push b s key).add_local ≡ s.add_local
  unfolding local_only
  add_local-local_only = ground arith

  push_remove-local_only : (local_only pull push b s key).push_remove ≡ s.push_remove
  unfolding local_only
  push_remove-local_only = ground arith

  remove_local-remote_only : (remote_only pull push b s key).remove_local ≡ s.remove_local
  unfolding remote_only
  remove_local-remote_only = ground arith

  push_add-remote_only : (remote_only pull push b s key).push_add ≡ s.push_add
  unfolding remote_only
  push_add-remote_only = ground arith

module _ (pull push : Bool) (b : List String) (a : String) where
  remove_local-loop :
      (s : Actions) (ks : List String)
      → contains (local_loop pull push b s ks).remove_local a
        ≡ (contains s.remove_local a || (contains ks a && (pull && (contains b a || not push))))
  unfolding local_loop contains
  remove_local-loop s [] = ground arith
  remove_local-loop s (k ∷ ks) = ground (
    arith,
    remove_local-loop (local_only pull push b s k) ks,
    remove_local-step pull push b s k a,
  )

  push_add-loop :
      (s : Actions) (ks : List String)
      → contains (local_loop pull push b s ks).push_add a
        ≡ (contains s.push_add a || (contains ks a && (push && not (contains b a && pull))))
  unfolding local_loop contains
  push_add-loop s [] = ground arith
  push_add-loop s (k ∷ ks) =
      ground (arith, push_add-loop (local_only pull push b s k) ks, push_add-step pull push b s k a)

  push_remove-loop :
      (s : Actions) (ks : List String)
      → contains (remote_loop pull push b s ks).push_remove a
        ≡ (contains s.push_remove a || (contains ks a && (push && contains b a)))
  unfolding remote_loop contains
  push_remove-loop s [] = ground arith
  push_remove-loop s (k ∷ ks) =
      ground (
        arith,
        push_remove-loop (remote_only pull push b s k) ks,
        push_remove-step pull push b s k a,
      )

  add_local-loop :
      (s : Actions) (ks : List String)
      → contains (remote_loop pull push b s ks).add_local a
        ≡ (contains s.add_local a || (contains ks a && (pull && not (contains b a && push))))
  unfolding remote_loop contains
  add_local-loop s [] = ground arith
  add_local-loop s (k ∷ ks) =
      ground
        (arith, add_local-loop (remote_only pull push b s k) ks, add_local-step pull push b s k a)

module _ (pull push : Bool) (b : List String) where
  local_loop-others :
      (s : Actions) (ks : List String)
      → ((local_loop pull push b s ks).add_local ≡ s.add_local)
        × ((local_loop pull push b s ks).push_remove ≡ s.push_remove)
  unfolding local_loop
  local_loop-others s [] = (refl, refl)
  local_loop-others s (k ∷ ks) = ground (
    arith,
    local_loop-others (local_only pull push b s k) ks,
    add_local-local_only pull push b s k k,
    push_remove-local_only pull push b s k k,
  )

  remote_loop-others :
      (s : Actions) (ks : List String)
      → ((remote_loop pull push b s ks).remove_local ≡ s.remove_local)
        × ((remote_loop pull push b s ks).push_add ≡ s.push_add)
  unfolding remote_loop
  remote_loop-others s [] = (refl, refl)
  remote_loop-others s (k ∷ ks) = ground (
    arith,
    remote_loop-others (remote_only pull push b s k) ks,
    remove_local-remote_only pull push b s k k,
    push_add-remote_only pull push b s k k,
  )

-- The sets after both loops, by where the key is found.
module _ (l r b : List String) (pull push : Bool) (a : String) where
  abbrev after_local : Actions
  after_local = local_loop pull push b no_actions (difference l r)

  pub remove_local-classified :
      contains (classified l r b pull push).remove_local a
      ≡ (contains l a && not (contains r a) && (pull && (contains b a || not push)))
  unfolding contains
  remove_local-classified = ground (
    arith,
    remote_loop-others pull push b after_local (difference r l),
    remove_local-loop pull push b a no_actions (difference l r),
    contains-filter (λ k. not (contains r k)) l a,
  )

  pub push_add-classified :
      contains (classified l r b pull push).push_add a
      ≡ (contains l a && not (contains r a) && (push && not (contains b a && pull)))
  unfolding contains
  push_add-classified = ground (
    arith,
    remote_loop-others pull push b after_local (difference r l),
    push_add-loop pull push b a no_actions (difference l r),
    contains-filter (λ k. not (contains r k)) l a,
  )

  pub push_remove-classified :
      contains (classified l r b pull push).push_remove a
      ≡ (contains r a && not (contains l a) && (push && contains b a))
  unfolding contains
  push_remove-classified = ground (
    arith,
    local_loop-others pull push b no_actions (difference l r),
    push_remove-loop pull push b a after_local (difference r l),
    contains-filter (λ k. not (contains l k)) r a,
  )

  pub add_local-classified :
      contains (classified l r b pull push).add_local a
      ≡ (contains r a && not (contains l a) && (pull && not (contains b a && push)))
  unfolding contains
  add_local-classified = ground (
    arith,
    local_loop-others pull push b no_actions (difference l r),
    add_local-loop pull push b a after_local (difference r l),
    contains-filter (λ k. not (contains l k)) r a,
  )
