-- ===== src/NodeList/Insert.antt =====
-- `list_insert` and `list_push`.
use dionysus.Prelude.{◌≡◌, refl, ◌≢◌, false, Option, none, some, [], ◌∷◌, ◌++◌, arith}
use dionysus.NodeList.Heap.{Ptr, Node, node, header, Heap, write, ok, load_list, Run}
use dionysus.NodeList.Heap.Commands.{
  not_null, with_node, with_list, set_prev-ok, set_next-ok, load_list-ok, set_head-ok, set_tail-ok,
}
use dionysus.NodeList.Links.{
  Cells, member, first, last, Links, nil, cons, Links-frame, IsList, not-member_of_none,
  Links-append, last-append,
}
use dionysus.NodeList.Relink.{IsLast, last-IsLast, relink_first, relink_last}
use dionysus.NodeList.{list_insert, list_push, link_last, link_first}

-- `h` is changed at most at the addresses of `xs` and at the header `l`.
pub record SameOutside (l : Ptr) (xs : Cells) (h g : Heap) : Type 0 where
  pub nodes : (a : Ptr) → member a xs ≡ false → g.nodes a ≡ h.nodes a
  pub lists : (k : Ptr) → k ≢ l → g.lists k ≡ h.lists k
  pub payloads : (d : Ptr) → g.payloads d ≡ h.payloads d

pub first-ne_null :
    {m : Ptr → Option Node} {l stop back p v : Ptr} {xs : Cells}
    → Links m l stop back ((p, v) ∷ xs)
    → p ≢ 0
first-ne_null (cons e ne out s) = ne

pub first-holds :
    {m : Ptr → Option Node} {l stop back p v : Ptr} {xs : Cells}
    → Links m l stop back ((p, v) ∷ xs)
    → m p ≡ some (node back (first xs stop) v l)
first-holds (cons e ne out s) = e

-- a run that ends in the list `xs` and the result `p`
pub record Ends (h : Heap) (l p : Ptr) (old new : Cells) (r : Run Ptr) : Type 0 where
  pub after : Heap
  pub returns : r ≡ ok p after
  pub list : IsList after l new
  pub same : SameOutside l old h after

module _ {h : Heap} {l : Ptr} (fresh d : Ptr) (ne : fresh ≢ 0) (unused : h.nodes fresh ≡ none) where
  insert_empty :
      IsList h l [] → Ends h l fresh ((fresh, d) ∷ []) ((fresh, d) ∷ []) (list_insert fresh l d h)
  unfolding list_insert link_last load_list write
  insert_empty is = record {
    after = record h {
      nodes = write h.nodes fresh (some (node 0 0 d l));
      lists = write h.lists l (some (header fresh fresh));
    };
    returns = ground (arith, is.ends, is.ne_null);
    list = record {
      ne_null = is.ne_null;
      ends = ground arith;
      links = cons (ground arith) ne refl nil;
    };
    same = record {
      nodes = λ a o. ground arith;
      lists = λ k o. ground arith;
      payloads = λ a. refl;
    };
  }

  module _ {p v : Ptr} {ys : Cells} (is : IsList h l ((p, v) ∷ ys)) where
    abbrev old_cells : Cells
    old_cells = (p, v) ∷ ys

    abbrev t : Ptr
    t = last p ys

    first_ne : p ≢ 0
    first_ne = first-ne_null is.links

    fresh_outside : member fresh old_cells ≡ false
    fresh_outside = not-member_of_none fresh is.links unused

    module _ (n : Node) (at : IsLast h.nodes l 0 t old_cells n) where
      ne_t : t ≢ fresh
      ne_t = ground (arith, at.inside, fresh_outside)

      abbrev h₁ : Heap
      h₁ = with_node h fresh (some (node 0 0 d l))

      abbrev h₂ : Heap
      h₂ = with_node h₁ t (some (record n { next = fresh }))

      abbrev h₃ : Heap
      h₃ = with_node h₂ fresh (some (node t 0 d l))

      insert_runs : list_insert fresh l d h ≡ ok fresh (with_list h₃ l (some (header p fresh)))
      unfolding list_insert link_last write
      insert_runs = rw (
        not_null l is.ne_null,
        not_null fresh ne,
        load_list-ok h₁ l is.ne_null is.ends,
        not_null p first_ne,
        set_next-ok h₁ t {n = n} at.ne_null (ground (arith, ne_t, at.holds)),
        set_prev-ok h₂ fresh {n = node 0 0 d l} ne (ground (arith, ne_t)),
        set_tail-ok h₃ l is.ne_null is.ends,
      )

      insert-Links : Links h₃.nodes l 0 0 (old_cells ++ (fresh, d) ∷ [])
      unfolding write
      insert-Links =
          Links-append old_cells
            (Links-frame (relink_last fresh is.links at.holds)
              (λ a i. ground (arith, fresh_outside)))
            (cons (ground arith) ne refl nil) (λ a i. ground (arith, fresh_outside))

      insert_more :
          Ends h l fresh
            ((fresh, d) ∷ old_cells)
            (old_cells ++ (fresh, d) ∷ [])
            (list_insert fresh l d h)
      unfolding write
      insert_more = record {
        after = with_list h₃ l (some (header p fresh));
        returns = insert_runs;
        list = record {
          ne_null = is.ne_null;
          ends = rw last-append (ground arith);
          links = insert-Links;
        };
        same = record {
          nodes = λ a o. ground (arith, at.inside);
          lists = λ k o. ground arith;
          payloads = λ a. refl;
        };
      }

  -- Given an unused address, `list_insert` returns it, puts a node with the payload at the end of
  -- the list, and changes nothing outside the list.
  pub list_insert-append :
      (xs : Cells)
      → IsList h l xs
      → Ends h l fresh ((fresh, d) ∷ xs) (xs ++ (fresh, d) ∷ []) (list_insert fresh l d h)
  list_insert-append [] is = insert_empty is
  list_insert-append ((p, v) ∷ ys) is = let (n, at) = last-IsLast is.links in insert_more is n at

  push_empty :
      IsList h l [] → Ends h l fresh ((fresh, d) ∷ []) ((fresh, d) ∷ []) (list_push fresh l d h)
  unfolding list_push link_first write
  push_empty is = record {
    after =
        with_list (with_list (with_node h fresh (some (node 0 0 d l))) l (some (header fresh 0))) l
          (some (header fresh fresh));
    returns = rw (
      not_null l is.ne_null,
      not_null fresh ne,
      load_list-ok h l is.ne_null is.ends,
      set_head-ok (with_node h fresh (some (node 0 0 d l))) l is.ne_null is.ends,
      set_tail-ok (with_list (with_node h fresh (some (node 0 0 d l))) l (some (header fresh 0))) l
          {r = header fresh 0} is.ne_null (ground arith),
    );
    list = record {
      ne_null = is.ne_null;
      ends = ground arith;
      links = cons (ground arith) ne refl nil;
    };
    same = record {
      nodes = λ a o. ground arith;
      lists = λ k o. ground arith;
      payloads = λ a. refl;
    };
  }

  module _ {p v : Ptr} {ys : Cells} (is : IsList h l ((p, v) ∷ ys)) where
    out : member fresh ((p, v) ∷ ys) ≡ false
    out = not-member_of_none fresh is.links unused

    abbrev pushed : Heap
    pushed = with_list (with_node h fresh (some (node 0 p d l))) l (some (header fresh (last p ys)))

    abbrev linked : Heap
    linked = with_node pushed p (some (node fresh (first ys 0) v l))

    push_runs : list_push fresh l d h ≡ ok fresh linked
    unfolding list_push link_first write
    push_runs =
        let (n, at) = last-IsLast is.links in
        rw (
          not_null l is.ne_null,
          not_null fresh ne,
          load_list-ok h l is.ne_null is.ends,
          set_head-ok (with_node h fresh (some (node 0 p d l))) l is.ne_null is.ends,
          not_null (last p ys) at.ne_null,
          set_prev-ok pushed p {n = node 0 (first ys 0) v l} (first-ne_null is.links)
              (ground (arith, out, first-holds is.links)),
        )

    push_more :
        Ends h l fresh ((fresh, d) ∷ (p, v) ∷ ys) ((fresh, d) ∷ (p, v) ∷ ys) (list_push fresh l d h)
    unfolding write
    push_more = record {
      after = linked;
      returns = push_runs;
      list = record {
        ne_null = is.ne_null;
        ends = ground arith;
        links =
            cons (ground (arith, out)) ne out
              (Links-frame (relink_first fresh is.links) (λ a i. ground (arith, out)));
      };
      same = record {
        nodes = λ a o. ground arith;
        lists = λ k o. ground arith;
        payloads = λ a. refl;
      };
    }

  -- Given an unused address, `list_push` returns it, puts a node with the payload in front of the
  -- list, and changes nothing outside the list.
  pub list_push-cons :
      (xs : Cells)
      → IsList h l xs
      → Ends h l fresh ((fresh, d) ∷ xs) ((fresh, d) ∷ xs) (list_push fresh l d h)
  list_push-cons [] is = push_empty is
  list_push-cons ((p, v) ∷ ys) is = push_more is
