-- ===== src/Fmu/Variables/Order.antt =====
-- The loops of fmu_variable_index as one loop over the variables that they index.
use dse_fmi.Common.{
  suc, ◌≤◌, ◌≡◌, refl, sym, ◌∙◌, ap, Bool, true, false, ◌&&◌, Option, some, List, [], ◌∷◌, ◌++◌,
  length, length-append, Bytes, HashMap, if◌then◌else◌, ◌>>=◌, >>=-congr, >>=-assoc, arith,
}
use dse_fmi.Fmu.Trace.{TraceApi, NCodecInstance}
use dse_fmi.Fmu.Variables.{
  XmlApi, Indexing, is_var, count_children, count_variables, index_one, index_children, index_nodes,
}

module _ (xml : XmlApi) where
  -- The variable, once for each of its elements of the type up to the first of another.
  abbrev pub matched : Bool → xml.Node → List xml.Node → List xml.Node
  matched is_binary node [] = []
  matched is_binary node (child ∷ rest) =
      if xml.is_element child
      then (if is_var xml is_binary child then node ∷ matched is_binary node rest else [])
      else matched is_binary node rest

  -- The variables that are indexed, in the order of the document.
  abbrev pub indexed_variables : Bool → List xml.Node → List xml.Node
  indexed_variables is_binary [] = []
  indexed_variables is_binary (node ∷ rest) =
      matched is_binary node (xml.children node) ++ indexed_variables is_binary rest

  matched-le-count_children :
      (is_binary : Bool) (node : xml.Node) (children : List xml.Node)
      → length (matched is_binary node children) ≤ count_children xml is_binary children
  unfolding count_children
  matched-le-count_children is_binary node [] = omega arith
  matched-le-count_children is_binary node (child ∷ rest) =
      by_tests (xml.is_element child) (is_var xml is_binary child)
        (matched-le-count_children is_binary node rest)
    where
      by_tests :
          (element var : Bool)
          → length (matched is_binary node rest) ≤ count_children xml is_binary rest
          → length (
              if element
              then (if var then node ∷ matched is_binary node rest else [])
              else matched is_binary node rest)
            ≤ (if element && var
                then suc (count_children xml is_binary rest)
                else count_children xml is_binary rest)
      by_tests true true ih = omega (arith, ih)
      by_tests true false ih = omega arith
      by_tests false var ih = ih

  -- fmu_variable_count counts at least the variables that are indexed.
  pub indexed_variables-le-count :
      (is_binary : Bool) (nodes : List xml.Node)
      → length (indexed_variables is_binary nodes) ≤ count_variables xml is_binary nodes
  unfolding count_variables
  indexed_variables-le-count is_binary [] = omega arith
  indexed_variables-le-count is_binary (node ∷ rest) = omega (
    arith,
    length-append {0} (matched is_binary node (xml.children node))
        (indexed_variables is_binary rest),
    matched-le-count_children is_binary node (xml.children node),
    indexed_variables-le-count is_binary rest,
  )

  module _ (trace : TraceApi) (create : Bytes → Option NCodecInstance) (env : HashMap Bytes) where
    abbrev pub index_list : Bool → List xml.Node → Indexing → Option Indexing
    index_list is_binary [] s = some s
    index_list is_binary (node ∷ rest) s =
        index_one xml trace create env is_binary node s >>= λ t. index_list is_binary rest t

    index_list-append :
        (is_binary : Bool) (xs ys : List xml.Node) (s : Indexing)
        → index_list is_binary (xs ++ ys) s
          ≡ (index_list is_binary xs s >>= λ t. index_list is_binary ys t)
    index_list-append is_binary [] ys s = refl
    index_list-append is_binary (x ∷ xs) ys s =
        >>=-congr (index_one xml trace create env is_binary x s) _ _
          (λ t. index_list-append is_binary xs ys t)
        ∙ sym (
            >>=-assoc (index_one xml trace create env is_binary x s)
              (λ t. index_list is_binary xs t) (λ u. index_list is_binary ys u))

    children-matched :
        (is_binary : Bool) (node : xml.Node) (children : List xml.Node) (s : Indexing)
        → index_children xml trace create env is_binary node children s
          ≡ index_list is_binary (matched is_binary node children) s
    unfolding index_children
    children-matched is_binary node [] s = refl
    children-matched is_binary node (child ∷ rest) s =
        by_tests (xml.is_element child) (is_var xml is_binary child)
          (children-matched is_binary node rest)
      where
        by_tests :
            (element var : Bool)
            → ((t : Indexing)
                → index_children xml trace create env is_binary node rest t
                  ≡ index_list is_binary (matched is_binary node rest) t)
            → (if element
                then (if var
                    then (index_one xml trace create env is_binary node s >>= λ t.
                        index_children xml trace create env is_binary node rest t)
                    else some s)
                else index_children xml trace create env is_binary node rest s)
              ≡ index_list is_binary
                  (if element
                    then (if var then node ∷ matched is_binary node rest else [])
                    else matched is_binary node rest)
                  s
        by_tests true true ih = >>=-congr (index_one xml trace create env is_binary node s) _ _ ih
        by_tests true false ih = refl
        by_tests false var ih = ih s

    pub index_nodes-index_list :
        (is_binary : Bool) (nodes : List xml.Node) (s : Indexing)
        → index_nodes xml trace create env is_binary nodes s
          ≡ index_list is_binary (indexed_variables is_binary nodes) s
    unfolding index_nodes
    index_nodes-index_list is_binary [] s = refl
    index_nodes-index_list is_binary (node ∷ rest) s =
        ap (λ o. o >>= λ t. index_nodes xml trace create env is_binary rest t)
          (children-matched is_binary node (xml.children node) s)
        ∙ >>=-congr (index_list is_binary (matched is_binary node (xml.children node)) s) _ _
            (λ t. index_nodes-index_list is_binary rest t)
        ∙ sym (
            index_list-append is_binary (matched is_binary node (xml.children node))
              (indexed_variables is_binary rest) s)
