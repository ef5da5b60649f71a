-- ===== src/App/Tests.antt =====
-- The program on a concrete machine: user memory with its four variables, and the endpoint that
-- main.cc keeps as a comment.
use pcie_systemc_linux.Prelude.{ℕ, ◌≡◌, ◌↔◌, refl, List, [], ◌∷◌, arith, take, tabulate_from}
use pcie_systemc_linux.Prelude.Bytes.{words_to_bytes}
use pcie_systemc_linux.Driver.Kernel.{Mmio}
use pcie_systemc_linux.Driver.Abi.{linux_abi}
use pcie_systemc_linux.Driver.Contract.{product_word}
use pcie_systemc_linux.Driver.Bus.{direct, direct-Reaches}
use pcie_systemc_linux.Server.Endpoint.{Endpoint, endpoint, endpoint_transport, endpoint_device}
use pcie_systemc_linux.Testbench.Memory.{HostMemory, store}
use pcie_systemc_linux.App.Machine.{user_space, variables, user_memory, linux, opens_driver}
use pcie_systemc_linux.App.Printed.{table, success_output}
use pcie_systemc_linux.App.Main.{Syscalls, printf, operand_a, operand_b, main}
use pcie_systemc_linux.App.Calls.{logged, Ended, main-Ended}
use pcie_systemc_linux.App.Copied.{AllCopied, main-AllCopied}
use pcie_systemc_linux.App.EndToEnd.{main_multiplies}

abbrev endpoint_io : Mmio Endpoint
endpoint_io = direct 0 endpoint_transport

-- The matrix that app.c gives in a comment.
abbrev matrix_c : List ℕ
matrix_c =
    322 ∷ 12262 ∷ 3 ∷ 1204 ∷ 657 ∷ 5846 ∷ 7 ∷ 24682 ∷ 17109 ∷ 6111 ∷ 252 ∷ 11137 ∷ 5204 ∷ 572 ∷ 6
    ∷ 2107 ∷ []

product-matrix_c : tabulate_from 16 0 (product_word operand_a operand_b) ≡ matrix_c
product-matrix_c = refl

abbrev linux_endpoint : Syscalls (HostMemory × Endpoint)
linux_endpoint = linux endpoint_io 0

-- The program of app.c prints the matrix of its comment.
main_multiplies_example :
    ((main linux_abi linux_endpoint variables (user_memory, endpoint)).code ≡ 0)
    × ((main linux_abi linux_endpoint variables (user_memory, endpoint)).output
        ≡ success_output linux_abi matrix_c)
    × ((main linux_abi linux_endpoint variables (user_memory, endpoint)).state.0
        ≡ store user_memory 128 (words_to_bytes matrix_c))
main_multiplies_example =
    main_multiplies linux_abi user_space endpoint_io 0
      (endpoint_device endpoint_io 0 (direct-Reaches 0 endpoint_transport)) linux_endpoint 3
      (opens_driver endpoint_io 0) variables user_memory
      (store user_memory 128 (words_to_bytes matrix_c)) endpoint operand_a operand_b (ground arith)
      (ground arith) refl refl refl refl refl refl

main-Ended_example :
    Ended linux_abi variables linux_endpoint
      (main linux_abi (logged linux_endpoint) variables ((user_memory, endpoint), []))
main-Ended_example = main-Ended linux_abi variables linux_endpoint (user_memory, endpoint)

main-AllCopied_example :
    (main linux_abi linux_endpoint variables (user_memory, endpoint)).code ≡ 0
    ↔ AllCopied linux_abi user_space endpoint_io 0 variables user_memory endpoint
main-AllCopied_example =
    main-AllCopied linux_abi user_space endpoint_io 0 linux_endpoint 3 (opens_driver endpoint_io 0)
      variables user_memory endpoint

-- The first row that it prints.
first_row :
    take 5 (table matrix_c)
    ≡ printf "%6u " (322 ∷ [])
      ∷ printf "%6u " (12262 ∷ [])
      ∷ printf "%6u " (3 ∷ [])
      ∷ printf "%6u " (1204 ∷ [])
      ∷ printf "\n" []
      ∷ []
first_row = refl
