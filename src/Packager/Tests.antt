-- ===== src/Packager/Tests.antt =====
-- Messages in and out, by example.
use nps_mux.Base.{
  ℕ, All, ◌≡◌, refl, arith, none, some, List, [], ◌∷◌, ◌++◌, length, length-replicate, replicate,
}
use nps_mux.Flag.{pool_size_window, mux_new_msg, mux_new_conn}
use nps_mux.Stream.{Writer, nil_slice}
use nps_mux.Packager.{MuxPackager, Unpacked, mux_unpack}
use nps_mux.Packager.Frame.{Message, content, send_ok, signal, frame, IsMessage}
use nps_mux.Packager.Unpack.{Delivers, unpack-frame}
use nps_mux.Packager.RoundTrip.{receive, frames, receive-frames}

abbrev blank : MuxPackager
blank = record {
  flag = 0;
  id = 0;
  window = 0;
  base = record { buf = nil_slice; length = 0; content = nil_slice };
}

abbrev zeros : List ℕ
zeros = replicate pool_size_window 0

length-zeros : length zeros ≡ pool_size_window
length-zeros = length-replicate {A = ℕ} pool_size_window 0

-- "hi" for connection 5.
abbrev hello : Message
hello = content mux_new_msg 5 (104 ∷ 105 ∷ [])

hello-IsMessage : IsMessage hello
hello-IsMessage = (refl, omega arith, omega arith, omega arith)

abbrev window_seven : Message
window_seven = send_ok 5 7

abbrev dial : Message
dial = signal mux_new_conn 6

abbrev three : List Message
three = hello ∷ window_seven ∷ dial ∷ []

three-IsMessage : All IsMessage three
three-IsMessage =
    (hello-IsMessage, ((omega arith, omega arith), ((refl, refl, omega arith, omega arith), tt)))

hello-frame : frame hello ≡ 3 ∷ 5 ∷ 0 ∷ 0 ∷ 0 ∷ 2 ∷ 0 ∷ 104 ∷ 105 ∷ []
unfolding nps_mux.Stream.le_bytes
hello-frame = refl

receive-frames_example :
    receive blank zeros zeros 3 (frames three ++ (9 ∷ [])) ≡ some (three, 9 ∷ [])
receive-frames_example =
    receive-frames blank zeros zeros length-zeros length-zeros three (9 ∷ []) three-IsMessage

unpack-frame_example :
    (u : Unpacked MuxPackager) × (mux_unpack blank zeros zeros (frame hello ++ (9 ∷ [])) ≡ some u)
    × Delivers hello (9 ∷ []) u
unpack-frame_example =
    unpack-frame hello blank zeros zeros (9 ∷ []) hello-IsMessage length-zeros length-zeros

abbrev stream : List ℕ
stream = frame hello ++ (9 ∷ [])

hello_read :
    (u : Unpacked MuxPackager) × (mux_unpack blank zeros zeros stream ≡ some u) × (u.error ≡ none)
hello_read =
    let (u, e, d) =
      unpack-frame hello blank zeros zeros (9 ∷ []) hello-IsMessage length-zeros length-zeros in
    (u, e, d.quiet)
