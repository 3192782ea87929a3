-- ===== src/Executor/Protection.antt =====
-- DockerSecurityFilter (src/executor/docker_security_filter.cpp): the containers that no command may
-- touch, as the list `m_protected` of names and ids.
use a.Base.{
  ◌≡◌, refl, ap, ◌∙◌, Bool, true, false, not, ◌&&◌, ◌||◌, List, [], ◌∷◌, ◌++◌, Bytes, bytes_eq,
  bytes_eq_iff, starts_with, is_empty, if◌then◌else◌, arith,
}

pub protect_container : Bytes → List Bytes → List Bytes
protect_container name_or_id protected =
    if not (is_empty name_or_id) then protected ++ name_or_id ∷ [] else protected

unfoldable pub matches : Bytes → Bytes → Bool
matches target pattern =
    if bytes_eq target pattern then true else if starts_with pattern target then true else false

unfoldable pub can_access : List Bytes → Bytes → Bool
unfolding matches
can_access [] container = true
can_access (p ∷ protected) container =
    let rest = can_access protected container in if matches container p then false else rest

pub can_access_all : List Bytes → List Bytes → Bool
can_access_all protected [] = true
can_access_all protected (c ∷ containers) =
    let rest = can_access_all protected containers in
    if not (can_access protected c) then false else rest

can_access-append :
    (ps qs : List Bytes) (c : Bytes)
    → can_access (ps ++ qs) c ≡ (can_access ps c && can_access qs c)
unfolding can_access
can_access-append [] qs c = refl
can_access-append (p ∷ ps) qs c = ground (arith, can_access-append ps qs c)

starts_with_self : (p : Bytes) → starts_with p p ≡ true
unfolding starts_with
starts_with_self [] = refl
starts_with_self (c ∷ p) = ground (arith, starts_with_self p)

matches-prefix : (p c : Bytes) → matches c p ≡ starts_with p c
unfolding matches
matches-prefix p c =
    let whole : bytes_eq c p ≡ true → starts_with p c ≡ true =
      λ h. ap (starts_with p) ((bytes_eq_iff c p).0 h) ∙ starts_with_self p in
    ground (arith, whole)

-- Protection only grows, and by exactly the containers it is for: once a name is protected (the
-- empty one is ignored), a container may be accessed if it was allowed before and does not begin
-- with that name.
can_access-protect_container :
    (name c : Bytes) (protected : List Bytes)
    → can_access (protect_container name protected) c
      ≡ (can_access protected c && (is_empty name || not (starts_with name c)))
unfolding protect_container can_access
can_access-protect_container name c protected =
    ground (arith, can_access-append protected (name ∷ []) c, matches-prefix name c)

-- A list of containers may be accessed exactly when both parts of any cut of it may: one protected
-- container anywhere refuses the whole list.
pub can_access_all-append :
    (protected xs ys : List Bytes)
    → can_access_all protected (xs ++ ys)
      ≡ (can_access_all protected xs && can_access_all protected ys)
unfolding can_access_all
can_access_all-append protected [] ys = refl
can_access_all-append protected (c ∷ xs) ys = ground (arith, can_access_all-append protected xs ys)
