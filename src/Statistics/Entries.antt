-- ===== src/Statistics/Entries.antt =====
-- The nodes of a tree that hold data, each with the names above it.
use tierceron.Base.{
  ◌≡◌, sym, false, List, [], ◌∷◌, ◌++◌, append_assoc, append-nil, Bool-cases, inl, inr,
  if◌then◌else◌,
}
use tierceron.GoStrings.{Text, text_eq, is_empty}
use tierceron.GoStrings.Equality.{text_eq_iff}
use tierceron.Statistics.{node, Nodes, no_nodes, more, append_node, into_node, add_below}
use mathlib.Core.List.{Perm, perm_middle}
use mathlib.Core.List.Perm
use mathlib.Core.Path.{subst}

abbrev pub Entry : Type 0
Entry = List Text × Text

abbrev pub own : List Text → Text → List Entry
own path content = if is_empty content then [] else (path, content) ∷ []

unfoldable pub entries : List Text → Nodes → List Entry
entries path no_nodes = []
entries path (more (node name content below) rest) =
    own path content ++ (entries (path ++ name ∷ []) below ++ entries path rest)

pub entries-append_node :
    (path : List Text) (name content : Text) (ns : Nodes)
    → is_empty content ≡ false
    → Perm
        (entries path (append_node (node name content no_nodes) ns))
        ((path, content) ∷ entries path ns)
unfolding append_node entries
entries-append_node path name content no_nodes h = rw h (Perm.refl ((path, content) ∷ []))
entries-append_node path name content (more (node n c below) rest) h =
    let above = own path c in
    let inside = entries (path ++ n ∷ []) below in
    Perm.trans
      (Perm.append_left above (
        Perm.trans (Perm.append_left inside (entries-append_node path name content rest h))
          (perm_middle inside (entries path rest))))
      (perm_middle above (inside ++ entries path rest))

entries-into_node :
    (path : List Text) (name : Text) (f : Nodes → Nodes) (e : Entry) (ns : Nodes)
    → ((ms : Nodes)
        → Perm (entries (path ++ name ∷ []) (f ms)) (e ∷ entries (path ++ name ∷ []) ms))
    → Perm (entries path (into_node name f ns)) (e ∷ entries path ns)
unfolding into_node entries
entries-into_node path name f e no_nodes h =
    rw (append-nil (entries (path ++ name ∷ []) (f no_nodes))) (h no_nodes)
entries-into_node path name f e (more (node n c below) rest) h =
    let above = own path c in
    let others = entries path rest in
    elim (Bool-cases (text_eq n name)) [
      | inl t ↦
          let same : name ≡ n = sym ((text_eq_iff n name).0 t) in
          let inside = entries (path ++ n ∷ []) below in
          let changed : Perm (entries (path ++ n ∷ []) (f below)) (e ∷ inside) =
            subst
              (λ x. Perm (entries (path ++ x ∷ []) (f below)) (e ∷ entries (path ++ x ∷ []) below))
              same (h below) in
          rw t (
            Perm.trans (Perm.append_left above (Perm.append_right others changed))
              (perm_middle above (inside ++ others)))
      | inr t ↦
          let inside = entries (path ++ n ∷ []) below in
          rw t (
            Perm.trans
              (Perm.append_left above (
                Perm.trans (Perm.append_left inside (entries-into_node path name f e rest h))
                  (perm_middle inside others)))
              (perm_middle above (inside ++ others)))
    ]

-- A node that is put below a path adds its data there, and changes no other.
pub entries-add_below :
    (path names : List Text) (name content : Text) (ns : Nodes)
    → is_empty content ≡ false
    → Perm
        (entries path (add_below names (node name content no_nodes) ns))
        ((path ++ names, content) ∷ entries path ns)
unfolding add_below
entries-add_below path [] name content ns h =
    rw (append-nil path) (entries-append_node path name content ns h)
entries-add_below path (n ∷ names) name content ns h =
    entries-into_node path n (add_below names (node name content no_nodes))
      (path ++ n ∷ names, content) ns
      (λ ms.
        subst
          (λ p.
            Perm (entries (path ++ n ∷ []) (add_below names (node name content no_nodes) ms))
              ((p, content) ∷ entries (path ++ n ∷ []) ms))
          (append_assoc path (n ∷ []) names)
          (entries-add_below (path ++ n ∷ []) names name content ms h))
