-- ===== src/Object.antt =====
-- src/object.h, src/object.c: the values that a database holds.
pub mod Compare
use lexidb.Base.{ℕ, Bool, List}
use lexidb.Base.Int.{ℤ}

-- `Double` is C's double, of which the model knows nothing. A string is its bytes. An array is its
-- items, in order. A hash table is the list of the insertions that filled it, in order.
mutual
  pub data Object (Double : Type 0) : Type 0 where
    null : Object Double
    int : ℤ → Object Double
    double : Double → Object Double
    bool : Bool → Object Double
    string : List ℕ → Object Double
    array : Items Double → Object Double
    ht : Pairs Double → Object Double

  pub data Items (Double : Type 0) : Type 0 where
    no_items : Items Double
    item : Object Double → Items Double → Items Double

  pub data Pairs (Double : Type 0) : Type 0 where
    no_pairs : Pairs Double
    pair : Object Double → Object Double → Pairs Double → Pairs Double
