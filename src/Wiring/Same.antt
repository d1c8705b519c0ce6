-- ===== src/Wiring/Same.antt =====
-- Two states with the same wiring: each account has the same nodes, each node the same id, and each
-- node the same account. internal/proxy/server.go and internal/proxy/types.go.
use mathlib.Core.Option
use qcc_plus.Prelude.{
  ◌≡◌, refl, sym, ◌∙◌, ap, String, Option, none, some, List, lookup, insert, map-insert,
}
use qcc_plus.Server.Defs.{Server, Node, Account}
use qcc_plus.Health.Keeps.{Keeps, shape, static}

abbrev pub nodes_of_account : Option Account → Option (List String)
nodes_of_account o = Option.map (λ acc. acc.nodes) o

abbrev pub id_of_node : Option Node → Option String
id_of_node o = Option.map (λ n. n.id) o

nodes-shape : (o : Option Account) → nodes_of_account (Option.map shape o) ≡ nodes_of_account o
nodes-shape none = refl
nodes-shape (some acc) = refl

id-static : (o : Option Node) → id_of_node (Option.map static o) ≡ id_of_node o
id-static none = refl
id-static (some n) = refl

module _ {F : Type 0} where
  pub record SameWiring (p q : Server F) : Type 0 where
    pub nodes :
        (a : String)
        → nodes_of_account (lookup a q.account_by_id) ≡ nodes_of_account (lookup a p.account_by_id)
    pub ids :
        (id : String) → id_of_node (lookup id q.node_index) ≡ id_of_node (lookup id p.node_index)
    pub owners : q.node_account ≡ p.node_account

  pub SameWiring-refl : (p : Server F) → SameWiring p p
  SameWiring-refl p = record { nodes = λ a. refl; ids = λ id. refl; owners = refl }

  pub SameWiring-trans : (p q r : Server F) → SameWiring p q → SameWiring q r → SameWiring p r
  SameWiring-trans p q r h k = record {
    nodes = λ a. k.nodes a ∙ h.nodes a;
    ids = λ id. k.ids id ∙ h.ids id;
    owners = k.owners ∙ h.owners;
  }

  -- Health checks keep the wiring.
  pub Keeps-SameWiring : (p q : Server F) → Keeps p q → SameWiring p q
  Keeps-SameWiring p q k = record {
    nodes = λ a.
        sym (nodes-shape (lookup a q.account_by_id))
        ∙ ap nodes_of_account (k.shapes a)
        ∙ nodes-shape (lookup a p.account_by_id);
    ids = λ id.
        sym (id-static (lookup id q.node_index))
        ∙ ap id_of_node (k.keys id)
        ∙ id-static (lookup id p.node_index);
    owners = k.owners;
  }

  -- So do writes to a node that keep its id,
  pub wired_node :
      (p q : Server F) (id : String) (n n' : Node)
      → q.node_index ≡ insert id n' p.node_index
      → q.node_account ≡ p.node_account
      → q.account_by_id ≡ p.account_by_id
      → lookup id p.node_index ≡ some n
      → n'.id ≡ n.id
      → SameWiring p q
  wired_node p q id n n' index owners accounts there same = record {
    nodes = λ a. ap (λ (m : List (String × Account)). nodes_of_account (lookup a m)) accounts;
    ids = λ j.
        ap (λ (m : List (String × Node)). id_of_node (lookup j m)) index
        ∙ map-insert (λ (k : Node). k.id) id j n n' p.node_index there same;
    owners = owners;
  }

  -- writes to an account that keep its nodes,
  pub wired_account :
      (p q : Server F) (a : String) (acc acc' : Account)
      → q.node_index ≡ p.node_index
      → q.node_account ≡ p.node_account
      → q.account_by_id ≡ insert a acc' p.account_by_id
      → lookup a p.account_by_id ≡ some acc
      → acc'.nodes ≡ acc.nodes
      → SameWiring p q
  wired_account p q a acc acc' index owners accounts there same = record {
    nodes = λ b.
        ap (λ (m : List (String × Account)). nodes_of_account (lookup b m)) accounts
        ∙ map-insert (λ (k : Account). k.nodes) a b acc acc' p.account_by_id there same;
    ids = λ j. ap (λ (m : List (String × Node)). id_of_node (lookup j m)) index;
    owners = owners;
  }

  -- both of them,
  pub wired_both :
      (p q : Server F) (id a : String) (n n' : Node) (acc acc' : Account)
      → q.node_index ≡ insert id n' p.node_index
      → q.node_account ≡ p.node_account
      → q.account_by_id ≡ insert a acc' p.account_by_id
      → lookup id p.node_index ≡ some n
      → n'.id ≡ n.id
      → lookup a p.account_by_id ≡ some acc
      → acc'.nodes ≡ acc.nodes
      → SameWiring p q
  wired_both p q id a n n' acc acc' index owners accounts there same found kept = record {
    nodes = λ b.
        ap (λ (m : List (String × Account)). nodes_of_account (lookup b m)) accounts
        ∙ map-insert (λ (k : Account). k.nodes) a b acc acc' p.account_by_id found kept;
    ids = λ j.
        ap (λ (m : List (String × Node)). id_of_node (lookup j m)) index
        ∙ map-insert (λ (k : Node). k.id) id j n n' p.node_index there same;
    owners = owners;
  }

  -- and calls that leave the three maps alone.
  pub wired_maps :
      (p q : Server F)
      → (q.node_index ≡ p.node_index)
        × (q.node_account ≡ p.node_account)
        × (q.account_by_id ≡ p.account_by_id)
      → SameWiring p q
  wired_maps p q (index, owners, accounts) = record {
    nodes = λ a. ap (λ (m : List (String × Account)). nodes_of_account (lookup a m)) accounts;
    ids = λ j. ap (λ (m : List (String × Node)). id_of_node (lookup j m)) index;
    owners = owners;
  }
