-- ===== src/Examples/Connecting.antt =====
-- A build of a container whose configuration fails, and a message over a small encoding of control messages.
use go_sandbox.Common.{
  zero, suc, [], ◌∷◌, none, some, true, false, ℕ, List, suc, arith, ◌++◌, codes, ◌≡◌, refl,
}
use go_sandbox.UnixSocket.Messages.{
  ControlCodec, Msg, recv_msg, ControlMessage, scm_rights, sol_socket, Ucred, scm_credentials,
  oob_of, parse_msg, parse_one,
}
use go_sandbox.UnixSocket.{SocketAnswers, new_socket_pair, new_socket, file_conn}
use go_sandbox.Container.Environment.{BuildAnswers, EnvironmentBuilder, build_environment}
use go_sandbox.Descriptors.{HostProcess}
use go_sandbox.Descriptors.Tables.{IsTable}
use go_sandbox.Container.Environment.Settled.{build_environment-Settled}
use go_sandbox.Ptracer.Events.{OrError, value, error}
use go_sandbox.Mount.{is_dir}
use go_sandbox.Container.Environment.Deferred.{Settled}

-- A message is its numbers, each raised by one, a zero and its kind.
abbrev packed : ℕ → List ℕ → List ℕ
packed k [] = 0 ∷ k ∷ []
packed k (x ∷ xs) = suc x ∷ packed k xs

abbrev unpack : List ℕ → List ℕ → List ControlMessage
unpack acc [] = []
unpack acc (zero ∷ []) = []
unpack acc (zero ∷ k ∷ rest) = record { level = sol_socket; kind = k; bytes = acc } ∷ unpack [] rest
unpack acc (suc x ∷ rest) = unpack (acc ++ x ∷ []) rest

abbrev ucred_of : List ℕ → OrError Ucred
ucred_of (p ∷ u ∷ g ∷ []) = value (record { pid = p; uid = u; gid = g })
ucred_of _ = error "bad credentials"

abbrev small_codec : ControlCodec
small_codec = record {
  unix_rights = packed scm_rights;
  unix_credentials = λ c. packed scm_credentials (c.pid ∷ c.uid ∷ c.gid ∷ []);
  parse_control = λ oob. value (unpack [] oob);
  parse_rights = λ m. value m.bytes;
  parse_credentials = λ m. ucred_of m.bytes;
}

abbrev two_files : Msg
two_files = record { fds = 4 ∷ 5 ∷ []; cred = some (record { pid = 1; uid = 1000; gid = 1000 }) }

-- two descriptors are sent alone, and come with the credentials that the kernel adds
sent_example :
    oob_of small_codec (some (record { fds = 4 ∷ 5 ∷ []; cred = none }))
    ≡ packed scm_rights (4 ∷ 5 ∷ [])
unfolding oob_of
sent_example = refl

received_example :
    recv_msg small_codec
      (value (7, packed scm_rights (4 ∷ 5 ∷ []) ++ packed scm_credentials (1 ∷ 1000 ∷ 1000 ∷ [])))
    ≡ value (7, two_files)
unfolding recv_msg parse_msg parse_one
received_example = refl

abbrev good_socket : SocketAnswers
good_socket = record { valid = true; conn_error = none; unix_conn = true }

-- The container starts and refuses its configuration; wait4 is interrupted twice.
abbrev refusing : BuildAnswers
refusing = record {
  stat = λ s. is_dir;
  getwd = value (codes "/tmp");
  dev_null_error = none;
  exec_error = none;
  sockets = record { pair_error = none; sender = good_socket; receiver = good_socket };
  pass_cred_error = none;
  dup_error = none;
  effective_uid = 0;
  effective_gid = 0;
  start = λ r root. value 77;
  conf_error = some "container refused";
  interruptions = 2;
  wait_error = none;
}

abbrev plain_builder : EnvironmentBuilder
plain_builder = record {
  mounts = [];
  root = [];
  stderr = false;
  cred_generator = none;
  clone_flags = 0;
}

abbrev some_host : HostProcess
some_host = record { opened = 2 ∷ 1 ∷ 0 ∷ []; next_fd = 3; children = 50 ∷ []; bad_closes = 0 }

some_host-IsTable : IsTable some_host
some_host-IsTable = record { older = (ground arith, (ground arith, (ground arith, tt))) }

build_environment-Settled_example :
    Settled some_host (build_environment refusing plain_builder some_host)
build_environment-Settled_example =
    build_environment-Settled refusing plain_builder some_host some_host-IsTable refl
      (λ r root pid e. (let p : 77 ≡ pid = cc in rw (← p) refl))

-- A receiver that cannot be made a connection closes the second end twice.
double_close :
    (new_socket_pair
      (record {
        pair_error = none;
        sender = good_socket;
        receiver = record good_socket { conn_error = some "no memory" };
      })
      some_host).1.bad_closes
    ≡ 1
unfolding new_socket_pair new_socket file_conn
double_close = refl
