-- ===== src/Server/Calls.antt =====
-- The system calls of lancet/servers/linux-synthetic.c, and the functions around them.
use kata_load_test.Base.{ℕ, Bool, true, not, ◌==◌, Outcome, exited, ◌>>◌, require, assert}
use kata_load_test.Base.Int.{ℤ, pos, negsuc, ltb_ℤ}

-- What the system calls return. `set_nonblocking` is fcntl with F_SETFL and O_NONBLOCK beside the
-- given flags; the options of the socket, `bind` and `listen` are for the listening socket;
-- `epoll_add` is epoll_ctl with EPOLL_CTL_ADD for a descriptor.
pub record ServerCalls : Type 0 where
  pub get_flags : ℤ → ℤ
  pub set_nonblocking : ℤ → ℤ → ℤ
  pub socket : ℤ
  pub reuse_port : ℤ
  pub reuse_addr : ℤ
  pub bind : ℕ → ℕ → ℤ
  pub listen : ℤ
  pub epoll_create : ℤ
  pub epoll_add : ℤ → ℤ → ℤ

abbrev pub non_negative : ℤ → Bool
non_negative n = not (ltb_ℤ n (pos 0))

unfoldable pub setnonblocking : ServerCalls → ℤ → Outcome (Unit {0})
setnonblocking sys fd = do
  assert (non_negative (sys.get_flags fd))
  assert (non_negative (sys.set_nonblocking fd (sys.get_flags fd)))

unfoldable pub epoll_ctl_add : ServerCalls → ℤ → ℤ → Outcome (Unit {0})
epoll_ctl_add sys epollfd fd = require (is_not_minus_one (sys.epoll_add epollfd fd)) (exited 1)
  where
    is_not_minus_one : ℤ → Bool
    is_not_minus_one (pos n) = true
    is_not_minus_one (negsuc n) = not (n == 0)
