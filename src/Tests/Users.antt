-- ===== src/Tests/Users.antt =====
-- The users of a configuration, and who can log in.
use lexidb.Auth.{vstr_cmp_zero, hash_password}
use lexidb.Base.{ℕ, ◌≡◌, refl, [], ◌∷◌, some, arith, codes, List}
use lexidb.Object.{string}
use lexidb.Server.{User}
use lexidb.Server.Execute.{logged_in}
use lexidb.ConfigParser.{no_user}
use lexidb.Server.Start.{hashed, add_user, round, add_loop, add_users}
use lexidb.Server.Start.Users.{logged_in-add_users}
use lexidb.Tests.Commands.{server, platform, place, value}
use lexidb.Tests.Platform.{libc, text_ops}
use lexidb.Vec.{Vec, find, find_from, push, append, vec_realloc}
use lexidb.Vec.Iter.{iter_new, iter_next}
use lexidb.Vec.Laws.{items, IsValid, AllocFits}

realloc-AllocFits : AllocFits platform.realloc
realloc-AllocFits n h = ground arith

abbrev user_named : List ℕ → User
user_named name = record { name = name; password = codes "s" }

abbrev configured : Vec User
configured = record {
  len = 2;
  cap = 2;
  data_size = 48;
  slots = user_named (codes "root") ∷ user_named (codes "ann") ∷ [];
}

configured-IsValid : IsValid configured
configured-IsValid = record {
  sized = omega arith;
  roomy = omega arith;
  within = omega arith;
  allocated = refl;
  small = omega arith;
}

abbrev no_users : Vec User
no_users = record { len = 0; cap = 2; data_size = 48; slots = no_user ∷ no_user ∷ [] }

no_users-IsValid : IsValid no_users
no_users-IsValid = record {
  sized = omega arith;
  roomy = omega arith;
  within = omega arith;
  allocated = refl;
  small = omega arith;
}

abbrev two_users : Vec User
two_users = record {
  len = 2;
  cap = 2;
  data_size = 48;
  slots =
      record { name = codes "root"; password = codes "73" }
      ∷ record { name = codes "ann"; password = codes "73" }
      ∷ [];
}

ran : add_users platform.realloc platform.sha256 configured 3 no_users ≡ some (some two_users)
unfolding add_users add_loop round add_user iter_new iter_next find find_from push append
    vec_realloc vstr_cmp_zero hash_password
ran = refl

logged_in-add_users_example :
    logged_in libc text_ops place value platform
      (record server { users = items two_users })
      (string (codes "ann"))
      (string (codes "s"))
    ≡ some (hashed platform.sha256 (user_named (codes "ann")))
logged_in-add_users_example =
    logged_in-add_users libc text_ops place value platform
      (record server { users = items two_users }) configured no_users two_users 1
      (user_named (codes "ann")) realloc-AllocFits configured-IsValid no_users-IsValid (omega arith)
      (omega arith) ran refl refl
